-- ===== src/StateStore.antt =====
-- pkg/auth/state_store.go: the in-memory store of OAuth state tokens. The Go map is a function
-- from keys to entries, the mutex makes each operation one step, and each operation is given the
-- time that `time.Now` returns and what `rand.Read` delivers.
pub mod History
pub mod Replay
pub mod Cleanup
mod Tests
use go_cloud_k8s_auth.Prelude.{
  ℕ, ◌+◌, Bytes, ◌==◌, bytes_eq, Bool, true, false, not, Option, none, some, [], ltb, if◌then◌else◌,
}
use go_cloud_k8s_auth.Prelude.Strings.{hex}
use go_cloud_k8s_auth.Prelude.Error.{Result, ok, err, Action}
use go_cloud_k8s_auth.Domain.{Time}

-- `defaultStateTTL`, five minutes in nanoseconds.
abbrev pub default_state_ttl : ℕ
default_state_ttl = 300000000000

pub record StateEntry : Type 0 where
  pub provider : Bytes
  pub redirect_uri : Bytes
  pub expires_at : Time

pub record StateStore : Type 0 where
  pub states : Bytes → Option StateEntry
  pub ttl : ℕ

pub new_state_store : StateStore
new_state_store = record { states = λ _. none; ttl = default_state_ttl }

-- `s.states[state] = entry` and `delete(s.states, state)`
abbrev pub insert : Bytes → StateEntry → (Bytes → Option StateEntry) → Bytes → Option StateEntry
insert key entry m j = if j == key then some entry else m j

abbrev pub remove : Bytes → (Bytes → Option StateEntry) → Bytes → Option StateEntry
remove key m j = if j == key then none else m j

-- `random` is the outcome of `rand.Read` on 32 bytes.
unfoldable pub generate_with_redirect :
    Result Bytes → Time → Bytes → Bytes → Action StateStore Bytes
generate_with_redirect (err e) now provider redirect_uri s = (err e, s)
generate_with_redirect (ok b) now provider redirect_uri s =
    let entry : StateEntry = record {
      provider = provider;
      redirect_uri = redirect_uri;
      expires_at = now + s.ttl;
    } in
    (ok (hex b), record s { states = insert (hex b) entry s.states })

unfoldable pub generate : Result Bytes → Time → Bytes → Action StateStore Bytes
unfolding generate_with_redirect
generate random now provider = generate_with_redirect random now provider []

-- `now.After(entry.expiresAt)`
abbrev pub expired : Time → StateEntry → Bool
expired now entry = ltb entry.expires_at now

-- The redirect URI, or `none` where the Go function returns false.
check_entry : Time → Bytes → StateEntry → Option Bytes
check_entry now provider entry =
    if expired now entry
    then none
    else if not (entry.provider == provider)
    then none
    else some entry.redirect_uri

unfoldable pub validate_and_consume : Time → Bytes → Bytes → StateStore → Option Bytes × StateStore
unfolding check_entry
validate_and_consume now state provider s = elim (s.states state) [
  | none ↦ (none, s)
  | some entry ↦ (check_entry now provider entry, record s { states = remove state s.states })
]

unfoldable pub validate : Time → Bytes → Bytes → StateStore → Bool × StateStore
unfolding validate_and_consume
validate now state provider s =
    let (found, t) = validate_and_consume now state provider s in
    (elim found [ none ↦ false | some _ ↦ true ], t)

-- One round of the loop in `cleanup`.
drop_expired : Time → Option StateEntry → Option StateEntry
drop_expired now none = none
drop_expired now (some entry) = if expired now entry then none else some entry

unfoldable pub cleanup : Time → StateStore → StateStore
unfolding drop_expired
cleanup now s = record s { states = λ j. drop_expired now (s.states j) }
