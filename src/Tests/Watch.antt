-- ===== src/Tests/Watch.antt =====
-- A run of the watcher of core/index.py: an event below one root, a turn that is too early, an event
-- below another root, and a turn that is late enough.
use quick_find.Prelude.{◌≡◌, refl, true, [], ◌∷◌, ◌++◌, arith}
use quick_find.Text.{codes, text_eq}
use quick_find.Index.Watch.{notified, turn, notify, watch, reports, watch-reports}

watch-reports_example :
    reports 10
      (codes "a")
      (watch 10
        (notify [] (codes "a") 5)
        ((turn 8 ∷ notified (codes "b") 9 ∷ []) ++ (turn 15 ∷ []))).0
    ≡ true
unfolding text_eq
watch-reports_example =
    watch-reports 10 [] (codes "a") 5 15 (turn 8 ∷ notified (codes "b") 9 ∷ []) refl (omega arith)
