-- ===== src/System/Refinement.antt =====
-- What the steps of the prober preserve, the whole system preserves.
use mathlib.Core.Path.{subst}
use hotswap_operator.Prelude.{String, List, ◌∷◌, sym}
use hotswap_operator.Api.Kube.{NamespacedName, Pod}
use hotswap_operator.Prober.Config.{ProbeConfig, PodTarget}
use hotswap_operator.Prober.Manager.{Runtime, key, sync, set_seen_ready, forget}
use hotswap_operator.Controller.Env.{Env, Run}
use hotswap_operator.Controller.Reconcile.{reconcile}
use hotswap_operator.Controller.Reconcile.Calls.{observed_keeps, reconcile_keeps}
use hotswap_operator.Controller.Reconcile.Admission.{met_by}
use hotswap_operator.System.{
  made_by, ready, System, new_system, on_manager, Move, Moves, stays, goes_on, IsWired, moves, runs,
  Reachable, initial, next,
}

module _ (rt : Runtime) where
  -- What moves and the three calls of the source preserve, a run of a wired reconciler preserves.
  module _ (P : System → Type 0) (moved : (s s' : System) → Move rt s s' → P s → P s')
      (syncs : (nn : NamespacedName) (cfg : ProbeConfig) (ts : List PodTarget) (s : System)
        → P s
        → P (record (on_manager (sync rt nn cfg ts) s) {
          log = made_by (key rt nn) ts s.prober.manager s.log;
        }))
      (marks : (nn : NamespacedName) (uid : String) (s : System)
        → P s
        → P (record (on_manager (set_seen_ready rt nn uid) s) {
          log = ready (key rt nn) uid ∷ s.log;
        }))
      (forgets : (nn : NamespacedName) (s : System) → P s → P (on_manager (forget rt nn) s)) where
    pub Moves_keep : (s s' : System) → Moves rt s s' → P s → P s'
    Moves_keep s _ stays h = h
    Moves_keep s _ (goes_on {s'} {s''} before move) h = moved s' s'' move (Moves_keep s s' before h)

    -- What happens after a call keeps `P`.
    after : (env : Env System) (w : IsWired rt env) (s : System) → P s → P (w.between s)
    after env w s h = Moves_keep s (w.between s) (w.moving s) h

    wired_syncs :
        (env : Env System) (w : IsWired rt env) (nn : NamespacedName) (cfg : ProbeConfig)
        (ts : List PodTarget) (s : System)
        → P s
        → P (env.prober.sync nn cfg ts s)
    wired_syncs env w nn cfg ts s h =
        subst (λ src. P (src.sync nn cfg ts s)) (sym w.wired) (after env w _ (syncs nn cfg ts s h))

    wired_marks :
        (env : Env System) (w : IsWired rt env) (nn : NamespacedName) (uid : String) (s : System)
        → P s
        → P (env.prober.set_seen_ready nn uid s)
    wired_marks env w nn uid s h =
        subst (λ src. P (src.set_seen_ready nn uid s)) (sym w.wired)
          (after env w _ (marks nn uid s h))

    wired_reads :
        (env : Env System) (w : IsWired rt env) (nn : NamespacedName) (s : System)
        → P s
        → P (env.prober.snapshot nn s).1
    wired_reads env w nn s h =
        subst (λ src. P (src.snapshot nn s).1) (sym w.wired) (after env w s h)

    wired_forgets :
        (env : Env System) (w : IsWired rt env) (nn : NamespacedName) (s : System)
        → P s
        → P (env.prober.forget nn s)
    wired_forgets env w nn s h =
        subst (λ src. P (src.forget nn s)) (sym w.wired) (after env w _ (forgets nn s h))

    -- In an environment that is wired, `Snapshot` meets the prober with `P`, and so does the end of the run.
    pub wired_meets :
        (env : Env System) (nn : NamespacedName) (cfg : ProbeConfig) (pods : List Pod)
        (r : Run System)
        → IsWired rt env
        → P r.state
        → P (met_by env nn cfg pods r)
    wired_meets env nn cfg pods r w h =
        observed_keeps env P (wired_syncs env w) (wired_marks env w) (wired_reads env w)
          (wired_forgets env w) nn cfg pods r.state h

    pub wired_keeps :
        (env : Env System) (nn : NamespacedName) (r : Run System)
        → IsWired rt env
        → P r.state
        → P (reconcile env nn r).2.state
    wired_keeps env nn r w h =
        reconcile_keeps env P (wired_syncs env w) (wired_marks env w) (wired_reads env w)
          (wired_forgets env w) nn r h

    pub Reachable_keeps : P new_system → {s : System} → Reachable rt s → P s
    Reachable_keeps start initial = start
    Reachable_keeps start (next {s} {s'} before (moves move)) =
        moved s s' move (Reachable_keeps start before)
    Reachable_keeps start (next {s} before (runs env nn effects w)) =
        wired_keeps env nn _ w (Reachable_keeps start before)
