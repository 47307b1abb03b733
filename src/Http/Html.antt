-- ===== src/Http/Html.antt =====
-- The pages of internal/http: what `fmt.Fprintf` writes for a template, with the values of
-- `html.EscapeString` and `url.PathEscape` in its places.
pub mod Inert
use Prim.Native.String.{String}
use shiroyagi.Base.{
  ℕ, zero, suc, ◌+◌, ◌-◌, ◌/◌, ◌%◌, Bool, true, false, ◌&&◌, ◌||◌, List, [], ◌∷◌, ◌++◌, ltb, leb,
  same, if◌then◌else◌,
}
use shiroyagi.Base.Int.{ℤ}
use shiroyagi.Text.{Bytes, codes, itoa}

abbrev pub escape_byte : ℕ → Bytes
escape_byte c =
    if same c b'&'
    then codes "&amp;"
    else if same c b'\''
    then codes "&#39;"
    else if same c b'<'
    then codes "&lt;"
    else if same c b'>'
    then codes "&gt;"
    else if same c b'"'
    then codes "&#34;"
    else c ∷ []

-- `html.EscapeString`
unfoldable pub escape_string : Bytes → Bytes
escape_string [] = []
escape_string (c ∷ s) = escape_byte c ++ escape_string s

abbrev pub between : ℕ → ℕ → ℕ → Bool
between lo c hi = leb lo c && leb c hi

-- The bytes that `url.PathEscape` leaves.
abbrev pub is_segment_byte : ℕ → Bool
is_segment_byte c =
    between b'a' c b'z'
    || (between b'A' c b'Z'
        || (between b'0' c b'9'
            || (same c b'-'
                || (same c b'_'
                    || (same c b'.'
                        || (same c b'~'
                            || (same c b'$'
                                || (same c b'&'
                                    || (same c b'+'
                                        || (same c b'=' || (same c b':' || same c b'@')))))))))))

abbrev pub hex_digit : ℕ → ℕ
hex_digit n = if ltb n 10 then b'0' + n else b'A' + (n - 10)

-- `url.PathEscape`
unfoldable pub path_escape : Bytes → Bytes
path_escape [] = []
path_escape (c ∷ s) =
    (if is_segment_byte c then c ∷ [] else b'%' ∷ hex_digit (c / 16) ∷ hex_digit (c % 16) ∷ [])
    ++ path_escape s

-- What a template and its arguments come to: text of the template, a value that is escaped for HTML
-- or for the segment of a path, a number, and a value that is written as it is.
pub data Piece : Type 0 where
  markup : String → Piece
  value : Bytes → Piece
  segment : Bytes → Piece
  number : ℤ → Piece
  verbatim : Bytes → Piece

abbrev pub written : Piece → Bytes
unfolding escape_string path_escape itoa
written (markup s) = codes s
written (value s) = escape_string s
written (segment s) = path_escape s
written (number n) = itoa n
written (verbatim s) = s

unfoldable pub render : List Piece → Bytes
unfolding written
render [] = []
render (p ∷ ps) = written p ++ render ps
