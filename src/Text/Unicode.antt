-- ===== src/Text/Unicode.antt =====
-- What Go's `strings` does from the first byte of a text on that is not ASCII: it decodes UTF-8 and
-- asks the tables of `unicode`, which are data of the Go distribution. Everything on ASCII bytes is
-- defined in the modules beside this one.
use shiroyagi.Base.{Bool, false}
use shiroyagi.Text.Basic.{Bytes}

pub record Unicode : Type 0 where
  -- the rest of `ToLower`
  pub to_lower : Bytes → Bytes
  -- `TrimFunc(rest, unicode.IsSpace)`
  pub trim : Bytes → Bytes
  -- `TrimRightFunc(text, unicode.IsSpace)`
  pub trim_right : Bytes → Bytes
  -- the rest of `EqualFold`
  pub equal_fold : Bytes → Bytes → Bool

-- Tables that leave every byte above ASCII as it is.
abbrev pub ascii_only : Unicode
ascii_only = record {
  to_lower = λ s. s;
  trim = λ s. s;
  trim_right = λ s. s;
  equal_fold = λ s t. false;
}
