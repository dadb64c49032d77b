-- ===== src/Telegram/Chunks/Golden.antt =====
-- The vectors of crates/tellm-telegram/tests/golden/chunk_text.json.
use tellm.Base.{◌≡◌, refl, codes, some, [], ◌∷◌}
use tellm.Telegram.Chunks.{chunk_text}

empty_test : chunk_text (codes "") 10 ≡ some (codes "" ∷ [])
unfolding chunk_text
empty_test = refl

shorter_than_chunk_test : chunk_text (codes "hello") 10 ≡ some (codes "hello" ∷ [])
unfolding chunk_text
shorter_than_chunk_test = refl

exactly_chunk_size_test : chunk_text (codes "0123456789") 10 ≡ some (codes "0123456789" ∷ [])
unfolding chunk_text
exactly_chunk_size_test = refl

one_over_no_newline_test :
    chunk_text (codes "0123456789A") 10 ≡ some (codes "0123456789" ∷ codes "A" ∷ [])
unfolding chunk_text
one_over_no_newline_test = refl

hard_cut_no_newlines_test :
    chunk_text (codes "AAAAAAAAAAAAAAAAAAAAAAAAA") 10
    ≡ some (codes "AAAAAAAAAA" ∷ codes "AAAAAAAAAA" ∷ codes "AAAAA" ∷ [])
unfolding chunk_text
hard_cut_no_newlines_test = refl

prefers_newline_break_test :
    chunk_text (codes "aaaa\nbbbb\ncccc\ndddd\neeee") 10
    ≡ some (codes "aaaa\nbbbb\n" ∷ codes "cccc\ndddd\n" ∷ codes "eeee" ∷ [])
unfolding chunk_text
prefers_newline_break_test = refl

newline_at_window_start_not_used_test :
    chunk_text (codes "\nBBBBBBBBBBBBBBB") 10 ≡ some (codes "\nBBBBBBBBB" ∷ codes "BBBBBB" ∷ [])
unfolding chunk_text
newline_at_window_start_not_used_test = refl

newline_only_string_test :
    chunk_text (codes "\n\n\n\n\n\n\n\n\n\n\n\n") 5
    ≡ some (codes "\n\n\n\n\n" ∷ codes "\n\n\n\n\n" ∷ codes "\n\n" ∷ [])
unfolding chunk_text
newline_only_string_test = refl

trailing_newline_test :
    chunk_text (codes "line one\nline two\nline three\n") 12
    ≡ some (codes "line one\n" ∷ codes "line two\n" ∷ codes "line three\n" ∷ [])
unfolding chunk_text
trailing_newline_test = refl

windows_crlf_test :
    chunk_text (codes "one\r\ntwo\r\nthree\r\nfour\r\nfive") 10
    ≡ some (codes "one\r\ntwo\r\n" ∷ codes "three\r\n" ∷ codes "four\r\nfive" ∷ [])
unfolding chunk_text
windows_crlf_test = refl

cyrillic_code_points_test :
    chunk_text
      (codes
        "привет мир это тест на кириллице привет мир это тест на кириллице привет мир это тест на кириллице ")
      20
    ≡ some (
        codes "привет мир это тест "
        ∷ codes "на кириллице привет "
        ∷ codes "мир это тест на кири"
        ∷ codes "ллице привет мир это"
        ∷ codes " тест на кириллице "
        ∷ [])
unfolding chunk_text
cyrillic_code_points_test = refl

emoji_astral_plane_test :
    chunk_text (codes "🚀🚀🚀 launch 🚀🚀🚀\n🚀🚀🚀 launch 🚀🚀🚀\n🚀🚀🚀 launch 🚀🚀🚀\n🚀🚀🚀 launch 🚀🚀🚀\n") 12
    ≡ some (
        codes "🚀🚀🚀 launch 🚀"
        ∷ codes "🚀🚀\n"
        ∷ codes "🚀🚀🚀 launch 🚀"
        ∷ codes "🚀🚀\n"
        ∷ codes "🚀🚀🚀 launch 🚀"
        ∷ codes "🚀🚀\n"
        ∷ codes "🚀🚀🚀 launch 🚀"
        ∷ codes "🚀🚀\n"
        ∷ [])
unfolding chunk_text
emoji_astral_plane_test = refl

realistic_markdown_test :
    chunk_text
      (codes
        "# Title\n\nSome intro paragraph that is fairly long and rambles on.\n\n- bullet one\n- bullet two\n- bullet three\n\n```python\nprint('hello world')\n```\n\nClosing thoughts here.")
      60
    ≡ some (
        codes "# Title\n\n"
        ∷ codes "Some intro paragraph that is fairly long and rambles on.\n\n"
        ∷ codes "- bullet one\n- bullet two\n- bullet three\n\n```python\n"
        ∷ codes "print('hello world')\n```\n\nClosing thoughts here."
        ∷ [])
unfolding chunk_text
realistic_markdown_test = refl

long_single_line_then_newline_test :
    chunk_text (codes "XXXXXXXXXXXXXXXXXXXXXXXXXXXXXX\nYYYYY") 20
    ≡ some (codes "XXXXXXXXXXXXXXXXXXXX" ∷ codes "XXXXXXXXXX\nYYYYY" ∷ [])
unfolding chunk_text
long_single_line_then_newline_test = refl

multibyte_boundary_stress_test :
    chunk_text (codes "äääääääääääääääääääää") 10
    ≡ some (codes "ääääääääää" ∷ codes "ääääääääää" ∷ codes "ä" ∷ [])
unfolding chunk_text
multibyte_boundary_stress_test = refl

chunk_size_one_test :
    chunk_text (codes "ab\ncd") 1
    ≡ some (codes "a" ∷ codes "b" ∷ codes "\n" ∷ codes "c" ∷ codes "d" ∷ [])
unfolding chunk_text
chunk_size_one_test = refl
