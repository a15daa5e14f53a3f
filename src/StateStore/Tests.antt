-- ===== src/StateStore/Tests.antt =====
-- Runs and witnesses for the state store.
use go_cloud_k8s_auth.Prelude.{Bytes, bytes_beq, true, false, some, List, [], ◌∷◌, ◌≡◌, refl, arith}
use go_cloud_k8s_auth.Prelude.Strings.{str, hex}
use go_cloud_k8s_auth.Prelude.Error.{ok}
use go_cloud_k8s_auth.Domain.{Time}
use go_cloud_k8s_auth.StateStore.{
  new_state_store, generate_with_redirect, validate_and_consume, validate, generate,
}
use go_cloud_k8s_auth.StateStore.History.{Op, starts, consumes, ticks, run}
use go_cloud_k8s_auth.StateStore.Replay.{redeem}
use go_cloud_k8s_auth.StateStore.Cleanup.{cleanup_unobservable, replies, without_ticks}

abbrev github : Bytes
github = str "github"

abbrev home : Bytes
home = str "/home"

-- Another login, another callback and a cleanup between the two requests of one login.
abbrev between : List (Time × Op)
between =
    (10, starts (ok (7 ∷ 7 ∷ [])) github home)
    ∷ (20, consumes (str "0707") github)
    ∷ (60, ticks)
    ∷ []

generated_token :
    (generate_with_redirect (ok (1 ∷ 254 ∷ [])) 5 github home new_state_store).0 ≡ ok (str "01fe")
unfolding generate_with_redirect hex
generated_token = refl

-- The test `TestStateStore` of the repository: valid once, then consumed.
validate_twice :
    let s = (generate (ok (1 ∷ [])) 5 github new_state_store).1 in
    let (first, t) = validate 6 (str "01") github s in
    let (second, u) = validate 7 (str "01") github t in (first ≡ true) × (second ≡ false)
unfolding generate validate bytes_beq new_state_store hex
validate_twice = (refl, refl)

redeem_example :
    (validate_and_consume 100
      (hex (1 ∷ []))
      github
      (run between (generate_with_redirect (ok (1 ∷ [])) 5 github home new_state_store).1)).0
    ≡ some home
unfolding new_state_store bytes_beq hex
redeem_example =
    redeem (1 ∷ []) github home github 5 100 between new_state_store
      ((λ e. cc), ((λ e. cc), (tt, tt))) (omega arith)

cleanup_unobservable_example :
    replies between new_state_store ≡ replies (without_ticks between) new_state_store
cleanup_unobservable_example = cleanup_unobservable 0 between new_state_store (omega arith)
