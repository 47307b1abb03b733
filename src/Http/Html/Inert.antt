-- ===== src/Http/Html/Inert.antt =====
-- Values cannot add markup to a page.
use shiroyagi.Base.{
  ℕ, zero, suc, ◌+◌, ◌/◌, ◌%◌, ◌≡◌, refl, ◌∙◌, Bool, ◌||◌, List, [], ◌∷◌, ◌++◌, same, arith,
  if◌then◌else◌,
}
use shiroyagi.Base.Int.{ℤ, pos, negsuc}
use shiroyagi.Text.{Bytes, codes, decimal, decimal_from, itoa}
use shiroyagi.Http.Html.{
  escape_byte, escape_string, path_escape, Piece, markup, value, segment, number, verbatim, render,
}

-- A byte that opens or closes a tag or an attribute: < > " '
abbrev pub is_delimiter : ℕ → Bool
is_delimiter c = same c b'<' || (same c b'>' || (same c b'"' || same c b'\''))

abbrev pub delimiters : Bytes → ℕ
delimiters [] = 0
delimiters (c ∷ s) = (if is_delimiter c then 1 else 0) + delimiters s

pub delimiters-append : (s t : Bytes) → delimiters (s ++ t) ≡ delimiters s + delimiters t
delimiters-append [] t = omega arith
delimiters-append (c ∷ s) t = omega (arith, delimiters-append s t)

delimiters-escape_byte : (c : ℕ) → delimiters (escape_byte c) ≡ 0
delimiters-escape_byte c = ground arith

pub delimiters-escape_string : (s : Bytes) → delimiters (escape_string s) ≡ 0
unfolding escape_string
delimiters-escape_string [] = refl
delimiters-escape_string (c ∷ s) =
    delimiters-append (escape_byte c) (escape_string s)
    ∙ omega (arith, delimiters-escape_byte c, delimiters-escape_string s)

pub delimiters-path_escape : (s : Bytes) → delimiters (path_escape s) ≡ 0
unfolding path_escape
delimiters-path_escape [] = refl
delimiters-path_escape (c ∷ s) = ground (arith, delimiters-path_escape s)

delimiters-decimal_from :
    (fuel n : ℕ) (acc : Bytes) → delimiters (decimal_from fuel n acc) ≡ delimiters acc
unfolding decimal_from
delimiters-decimal_from zero n acc = refl
delimiters-decimal_from (suc fuel) n acc =
    ground (arith, delimiters-decimal_from fuel (n / 10) ((48 + n % 10) ∷ acc))

pub delimiters-itoa : (n : ℤ) → delimiters (itoa n) ≡ 0
unfolding itoa decimal
delimiters-itoa (pos n) = delimiters-decimal_from (suc n) n []
delimiters-itoa (negsuc n) = omega (arith, delimiters-decimal_from (suc (n + 1)) (n + 1) [])

-- The delimiters of the template and of the values that are written as they are.
abbrev pub own_delimiters : List Piece → ℕ
own_delimiters [] = 0
own_delimiters (markup s ∷ ps) = delimiters (codes s) + own_delimiters ps
own_delimiters (value s ∷ ps) = own_delimiters ps
own_delimiters (segment s ∷ ps) = own_delimiters ps
own_delimiters (number n ∷ ps) = own_delimiters ps
own_delimiters (verbatim s ∷ ps) = delimiters s + own_delimiters ps

-- The bytes < > " and ' of a page that is written from pieces are those of its template and of the
-- values that are written verbatim: a value that is written by html.EscapeString, url.PathEscape or
-- as a number adds none of them.
pub delimiters-render : (ps : List Piece) → delimiters (render ps) ≡ own_delimiters ps
unfolding render
delimiters-render [] = refl
delimiters-render (markup s ∷ ps) =
    delimiters-append (codes s) (render ps) ∙ omega (arith, delimiters-render ps)
delimiters-render (value s ∷ ps) =
    delimiters-append (escape_string s) (render ps)
    ∙ omega (arith, delimiters-escape_string s, delimiters-render ps)
delimiters-render (segment s ∷ ps) =
    delimiters-append (path_escape s) (render ps)
    ∙ omega (arith, delimiters-path_escape s, delimiters-render ps)
delimiters-render (number n ∷ ps) =
    delimiters-append (itoa n) (render ps) ∙ omega (arith, delimiters-itoa n, delimiters-render ps)
delimiters-render (verbatim s ∷ ps) =
    delimiters-append s (render ps) ∙ omega (arith, delimiters-render ps)
