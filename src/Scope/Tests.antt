-- ===== src/Scope/Tests.antt =====
-- The theorems on the scope of a user at the small organization.
use molenkopf.Base.{◌≡◌, refl, true, some, [], ◌∷◌, filter}
use molenkopf.Identity.{User, member}
use molenkopf.Identity.Tests.{a_user, test_data}
use molenkopf.Runtime.{RuntimeState}
use molenkopf.Usage.Tests.{fresh_state, three_requests}
use molenkopf.Scope.{auth_required, SessionPayload, current_user, filter_audit_for_user}
use molenkopf.Scope.Laws.{reads, filter_audit_for_user-reads, IsCurrent, current_user-IsCurrent}

abbrev cleo : User
cleo = record (a_user "cleo" member ("lab" ∷ [])) {
  password = some (record { salt = "s"; hash = "h" });
}

abbrev guarded_state : RuntimeState
guarded_state = record fresh_state {
  identity = some (record test_data { users = ("cleo", cleo) ∷ test_data.users });
}

guarded_state-required : auth_required guarded_state ≡ true
unfolding auth_required
guarded_state-required = refl

filter_audit_example :
    filter_audit_for_user guarded_state (some cleo) three_requests
    ≡ filter (reads guarded_state cleo) three_requests
filter_audit_example =
    filter_audit_for_user-reads guarded_state cleo three_requests guarded_state-required refl

abbrev cleo_session : SessionPayload
cleo_session = record { user_id = "cleo"; session_version = 0 }

cleo-signed_in : current_user guarded_state (some cleo_session) ≡ some cleo
unfolding current_user
cleo-signed_in = refl

current_user_example : IsCurrent guarded_state cleo_session cleo
current_user_example = current_user-IsCurrent guarded_state cleo_session cleo cleo-signed_in
