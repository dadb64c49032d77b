-- ===== src/Telegram/Markdown/Golden.antt =====
-- The vectors of crates/tellm-telegram/tests/golden/markdown_to_html.json.
use tellm.Base.{◌≡◌, refl, codes}
use tellm.Telegram.Markdown.{markdown_to_html}

empty_test : markdown_to_html (codes "") ≡ codes ""
unfolding markdown_to_html tellm.Base.Decimal.decimal tellm.Base.text_eq
empty_test = refl

plain_text_test : markdown_to_html (codes "Just a plain sentence.") ≡ codes "Just a plain sentence."
unfolding markdown_to_html tellm.Base.Decimal.decimal tellm.Base.text_eq
plain_text_test = refl

html_escaping_test :
    markdown_to_html (codes "Tags like <b> & \"quotes\" and 'single' get escaped")
    ≡ codes "Tags like &lt;b&gt; &amp; &quot;quotes&quot; and &#x27;single&#x27; get escaped"
unfolding markdown_to_html tellm.Base.Decimal.decimal tellm.Base.text_eq
html_escaping_test = refl

bold_asterisks_test :
    markdown_to_html (codes "This is **bold** text") ≡ codes "This is <b>bold</b> text"
unfolding markdown_to_html tellm.Base.Decimal.decimal tellm.Base.text_eq
bold_asterisks_test = refl

bold_underscores_test :
    markdown_to_html (codes "This is __also bold__ text") ≡ codes "This is <b>also bold</b> text"
unfolding markdown_to_html tellm.Base.Decimal.decimal tellm.Base.text_eq
bold_underscores_test = refl

bold_not_across_newline_test :
    markdown_to_html (codes "**not\nbold** stays literal asterisks")
    ≡ codes "**not\nbold** stays literal asterisks"
unfolding markdown_to_html tellm.Base.Decimal.decimal tellm.Base.text_eq
bold_not_across_newline_test = refl

inline_code_test :
    markdown_to_html (codes "Run `cargo test` to verify")
    ≡ codes "Run <code>cargo test</code> to verify"
unfolding markdown_to_html tellm.Base.Decimal.decimal tellm.Base.text_eq
inline_code_test = refl

inline_code_escapes_inside_test :
    markdown_to_html (codes "Use `a < b && c > d` carefully")
    ≡ codes "Use <code>a &lt; b &amp;&amp; c &gt; d</code> carefully"
unfolding markdown_to_html tellm.Base.Decimal.decimal tellm.Base.text_eq
inline_code_escapes_inside_test = refl

heading_h1_test : markdown_to_html (codes "# Big Title") ≡ codes "<b>Big Title</b>"
unfolding markdown_to_html tellm.Base.Decimal.decimal tellm.Base.text_eq
heading_h1_test = refl

heading_h3_leading_spaces_test :
    markdown_to_html (codes "   ### Indented heading   ") ≡ codes "<b>Indented heading</b>"
unfolding markdown_to_html tellm.Base.Decimal.decimal tellm.Base.text_eq
heading_h3_leading_spaces_test = refl

heading_too_indented_is_text_test :
    markdown_to_html (codes "    # four spaces is not a heading")
    ≡ codes "    # four spaces is not a heading"
unfolding markdown_to_html tellm.Base.Decimal.decimal tellm.Base.text_eq
heading_too_indented_is_text_test = refl

link_simple_test :
    markdown_to_html (codes "See [the docs](https://example.com/docs) for more")
    ≡ codes "See <a href=\"https://example.com/docs\">the docs</a> for more"
unfolding markdown_to_html tellm.Base.Decimal.decimal tellm.Base.text_eq
link_simple_test = refl

link_with_query_amp_test :
    markdown_to_html (codes "Go to [search](https://example.com/a?b=1&c=2) now")
    ≡ codes "Go to <a href=\"https://example.com/a?b=1&amp;c=2\">search</a> now"
unfolding markdown_to_html tellm.Base.Decimal.decimal tellm.Base.text_eq
link_with_query_amp_test = refl

fenced_no_language_test :
    markdown_to_html (codes "before\n```\ncode here\n```\nafter")
    ≡ codes "before\n<pre><code>code here</code></pre>\nafter"
unfolding markdown_to_html tellm.Base.Decimal.decimal tellm.Base.text_eq
fenced_no_language_test = refl

fenced_with_language_test :
    markdown_to_html (codes "```python\nprint('hi')\n```")
    ≡ codes "<pre><code>print(&#x27;hi&#x27;)</code></pre>"
unfolding markdown_to_html tellm.Base.Decimal.decimal tellm.Base.text_eq
fenced_with_language_test = refl

fenced_preserves_literals_test :
    markdown_to_html (codes "```rust\nlet x = a < b && c > d; // **not bold** `not code`\n```")
    ≡ codes
        "<pre><code>let x = a &lt; b &amp;&amp; c &gt; d; // **not bold** `not code`</code></pre>"
unfolding markdown_to_html tellm.Base.Decimal.decimal tellm.Base.text_eq
fenced_preserves_literals_test = refl

fenced_multiple_blocks_test :
    markdown_to_html (codes "```\nfirst\n```\nmiddle **bold**\n```\nsecond\n```")
    ≡ codes "<pre><code>first</code></pre>\nmiddle <b>bold</b>\n<pre><code>second</code></pre>"
unfolding markdown_to_html tellm.Base.Decimal.decimal tellm.Base.text_eq
fenced_multiple_blocks_test = refl

fenced_unclosed_stays_raw_test :
    markdown_to_html (codes "```python\nprint('never closed')")
    ≡ codes "```python\nprint(&#x27;never closed&#x27;)"
unfolding markdown_to_html tellm.Base.Decimal.decimal tellm.Base.text_eq
fenced_unclosed_stays_raw_test = refl

fenced_strips_outer_newlines_test :
    markdown_to_html (codes "```\n\n\npadded\n\n\n```") ≡ codes "<pre><code>padded</code></pre>"
unfolding markdown_to_html tellm.Base.Decimal.decimal tellm.Base.text_eq
fenced_strips_outer_newlines_test = refl

quad_backtick_fence_test :
    markdown_to_html (codes "````\ncode\n```") ≡ codes "`<pre><code>code</code></pre>"
unfolding markdown_to_html tellm.Base.Decimal.decimal tellm.Base.text_eq
quad_backtick_fence_test = refl

bracket_in_link_label_test :
    markdown_to_html (codes "[see [1]](https://x.org) end") ≡ codes "[see [1]](https://x.org) end"
unfolding markdown_to_html tellm.Base.Decimal.decimal tellm.Base.text_eq
bracket_in_link_label_test = refl

multiline_bold_second_open_test :
    markdown_to_html (codes "**a\nb** and **c**") ≡ codes "**a\nb<b> and </b>c**"
unfolding markdown_to_html tellm.Base.Decimal.decimal tellm.Base.text_eq
multiline_bold_second_open_test = refl

seven_hashes_not_a_heading_test : markdown_to_html (codes "####### seven") ≡ codes "####### seven"
unfolding markdown_to_html tellm.Base.Decimal.decimal tellm.Base.text_eq
seven_hashes_not_a_heading_test = refl

heading_only_whitespace_after_hashes_test : markdown_to_html (codes "##   ") ≡ codes "<b></b>"
unfolding markdown_to_html tellm.Base.Decimal.decimal tellm.Base.text_eq
heading_only_whitespace_after_hashes_test = refl

empty_bold_stays_literal_test : markdown_to_html (codes "****") ≡ codes "****"
unfolding markdown_to_html tellm.Base.Decimal.decimal tellm.Base.text_eq
empty_bold_stays_literal_test = refl

triple_underscore_bold_test : markdown_to_html (codes "___x___") ≡ codes "<b>_x</b>_"
unfolding markdown_to_html tellm.Base.Decimal.decimal tellm.Base.text_eq
triple_underscore_bold_test = refl

backtick_in_fence_language_no_fence_test :
    markdown_to_html (codes "```a`b\ncode\n```") ≡ codes "``<code>a</code>b\ncode\n```"
unfolding markdown_to_html tellm.Base.Decimal.decimal tellm.Base.text_eq
backtick_in_fence_language_no_fence_test = refl

kitchen_sink_test :
    markdown_to_html (
      codes
        "# Report\n\nThe value of `x` is **42** — see [ref](https://x.org/p?a=1&b=2).\n\n```sh\necho \"a > b\" && ls\n```\n\n__Done__ & dusted <end>")
    ≡ codes
        "<b>Report</b>\n\nThe value of <code>x</code> is <b>42</b> — see <a href=\"https://x.org/p?a=1&amp;b=2\">ref</a>.\n\n<pre><code>echo &quot;a &gt; b&quot; &amp;&amp; ls</code></pre>\n\n<b>Done</b> &amp; dusted &lt;end&gt;"
unfolding markdown_to_html tellm.Base.Decimal.decimal tellm.Base.text_eq
kitchen_sink_test = refl
