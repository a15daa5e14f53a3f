-- ===== src/StateStore/History.antt =====
-- Histories of the state store: what the handlers and the background goroutine do to it, in the
-- order in which they take the lock.
use go_cloud_k8s_auth.Prelude.{Bytes, List, [], ◌∷◌, ◌≢◌}
use go_cloud_k8s_auth.Prelude.Strings.{hex}
use go_cloud_k8s_auth.Prelude.Error.{Result, ok}
use go_cloud_k8s_auth.Domain.{Time}
use go_cloud_k8s_auth.StateStore.{StateStore, generate_with_redirect, validate_and_consume, cleanup}

pub data Op : Type 0 where
  starts : Result Bytes → Bytes → Bytes → Op
  consumes : Bytes → Bytes → Op
  ticks : Op

-- The store after one operation at a time.
unfoldable pub step : Time × Op → StateStore → StateStore
step (now, starts random provider uri) s = (generate_with_redirect random now provider uri s).1
step (now, consumes state provider) s = (validate_and_consume now state provider s).1
step (now, ticks) s = cleanup now s

unfoldable pub run : List (Time × Op) → StateStore → StateStore
run [] s = s
run (c ∷ cs) s = run cs (step c s)

-- The operation does not generate this token (the random bytes are other ones).
abbrev pub Fresh : Bytes → Op → Type 0
Fresh state (starts (ok b) provider uri) = hex b ≢ state
Fresh state _ = Unit {0}

-- Nor does it present the token.
abbrev pub Untouched : Bytes → Op → Type 0
Untouched state (starts (ok b) provider uri) = hex b ≢ state
Untouched state (consumes s provider) = s ≢ state
Untouched state _ = Unit {0}
