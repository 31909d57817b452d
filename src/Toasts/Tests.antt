-- ===== src/Toasts/Tests.antt =====
-- Two toasts, one of which runs out.
use nexra.Prelude.{◌+◌, ◌<◌, ◌≡◌, refl, none, some, List, [], ◌∷◌, ◌==◌, count, All}
use nexra.Toasts.{no_toasts, Event, shown, elapse, show_toast, run, step, info}
use nexra.Toasts.Lifetime.{run-elapse-alive}

abbrev two_shown : List Event
two_shown = shown 100 "Starting broadcast..." (some info) ∷ shown 3000 "Campaign deleted" none ∷ []

elapse-run : count (λ t. t.id == 3000) (elapse 4100 (run two_shown no_toasts)).toasts ≡ 1
unfolding run step show_toast elapse
elapse-run = refl

run-elapse-alive_example :
    All (λ t. 4100 < t.id + 4000) (elapse 4100 (run two_shown no_toasts)).toasts
run-elapse-alive_example = run-elapse-alive two_shown 4100
