-- ===== src/Http/Message.antt =====
-- Requests and responses of net/http, as far as the handlers read and write them.
use shiroyagi.Base.{ℕ, Bool, Option, List, [], ◌++◌}
use shiroyagi.Base.Int.{ℤ}
use shiroyagi.Text.{Bytes, codes}

-- `query` and `form` give "" for a missing key, as `url.Values.Get` and `FormValue` do;
-- `form_ok` says whether `ParseForm` succeeds.
pub record Request : Type 0 where
  pub cookie : Bytes → Option Bytes
  pub query : Bytes → Bytes
  pub path_value : Bytes → Bytes
  pub form_ok : Bool
  pub form : Bytes → Bytes

-- Every cookie of the program has the path "/", is HttpOnly and SameSite=Lax.
pub record Cookie : Type 0 where
  pub name : Bytes
  pub value : Bytes
  pub max_age : ℤ

-- A `page` is HTML, the others are plain text and a redirect.
pub data Body : Type 0 where
  text : Bytes → Body
  location : Bytes → Body
  page : Bytes → Body

pub record Response : Type 0 where
  pub cookies : List Cookie
  pub status : ℕ
  pub body : Body

abbrev pub http_error : Bytes → ℕ → Response
http_error message status = record { cookies = []; status = status; body = text message }

abbrev pub redirect : Bytes → ℕ → Response
redirect url status = record { cookies = []; status = status; body = location url }

abbrev pub not_found : Response
not_found = http_error (codes "404 page not found") 404

-- The cookies that the handler has set before it ends with `r`.
abbrev pub with_cookies : List Cookie → Response → Response
with_cookies cs r = record r { cookies = cs ++ r.cookies }
