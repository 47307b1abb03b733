-- ===== src/Auth/Session.antt =====
-- internal/auth/session.go. The mutex makes each method atomic, so a method is a function of the
-- store.
use shiroyagi.Base.{Option, none, if◌then◌else◌}
use shiroyagi.Base.Int.{ℤ}
use shiroyagi.Text.{Bytes, is_empty}
use shiroyagi.Dict
use shiroyagi.Dict.{Dict}

-- `created_at` is in seconds of the Unix time.
pub record UserSession : Type 0 where
  pub subject : Bytes
  pub email : Bytes
  pub name : Bytes
  pub preferred_username : Bytes
  pub auth_time : ℤ
  pub created_at : ℤ

pub record SessionStore : Type 0 where
  pub sessions : Dict UserSession
  pub reauth_after : Dict ℤ

abbrev pub new_session_store : SessionStore
new_session_store = record { sessions = Dict.empty; reauth_after = Dict.empty }

unfoldable pub put : SessionStore → Bytes → UserSession → SessionStore
put s id session = record s { sessions = Dict.insert id session s.sessions }

unfoldable pub get : SessionStore → Bytes → Option UserSession
get s id = Dict.lookup id s.sessions

unfoldable pub delete : SessionStore → Bytes → SessionStore
delete s id = record s { sessions = Dict.remove id s.sessions }

unfoldable pub require_reauth_after : SessionStore → Bytes → ℤ → SessionStore
require_reauth_after s subject unix_time =
    if is_empty subject
    then s
    else record s { reauth_after = Dict.insert subject unix_time s.reauth_after }

unfoldable pub reauth_after_time : SessionStore → Bytes → Option ℤ
reauth_after_time s subject = if is_empty subject then none else Dict.lookup subject s.reauth_after

unfoldable pub clear_reauth_after : SessionStore → Bytes → SessionStore
clear_reauth_after s subject =
    if is_empty subject then s else record s { reauth_after = Dict.remove subject s.reauth_after }
