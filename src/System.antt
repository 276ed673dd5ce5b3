-- ===== src/System.antt =====
-- The prober and the reconciler together, as cmd/main.go wires them: the manager is the reconciler's source of
-- verdicts, and the goroutines go on while a run of `Reconcile` is under way.
pub mod Refinement
pub mod Results
pub mod Backing
pub mod Taken
pub mod Invariant
pub mod Verdicts
use hotswap_operator.Prelude.{ℕ, String, Bool, true, ◌≡◌, Option, none, some, List, [], ◌∷◌}
use hotswap_operator.Api.Kube.{NamespacedName}
use hotswap_operator.Prober.Config.{ProbeConfig, PodTarget}
use hotswap_operator.Prober.Threshold.{PodEntry}
use hotswap_operator.Prober.Manager.{
  Worker, Manager, Runtime, slot, key, sync, set_seen_ready, snapshot, forget,
}
use hotswap_operator.Prober.Loop.{
  Prober, new_prober, Turn, enters, delay_over, delay_cancelled, begins, answers, sends, gives_up,
  ticks, ends,
}
use hotswap_operator.Controller.Env.{Effect, ProbeSource, Env}
use hotswap_operator.Controller.Reconcile.{reconcile}

-- What becomes of the pod with a UID, under the key of a policy: `Sync` takes it up, the checker answers a probe
-- under a configuration, the API server shows the pod ready.
pub data Evidence : Type 0 where
  made : (k uid : String) → Evidence
  probed : (k uid : String) → ProbeConfig → (ok : Bool) → Evidence
  ready : (k uid : String) → Evidence

-- The prober, and what has become of its pods so far, the newest first. No code reads `log`.
pub record System : Type 0 where
  pub prober : Prober
  pub log : List Evidence

unfoldable pub new_system : System
new_system = record { prober = new_prober; log = [] }

-- A call of the manager.
abbrev pub on_manager : (Manager → Manager) → System → System
on_manager f s = record s { prober = record s.prober { manager = f s.prober.manager } }

abbrev note_new : Option PodEntry → Evidence → List Evidence → List Evidence
note_new none e log = e ∷ log
note_new (some pod) e log = log

-- The targets that are not known yet are taken up.
unfoldable pub made_by : String → List PodTarget → Manager → List Evidence → List Evidence
made_by k [] m log = log
made_by k (t ∷ ts) m log = note_new (slot k t.uid m) (made k t.uid) (made_by k ts m log)

module _ (rt : Runtime) where
  -- A goroutine that has an answer of the checker adds it to what the prober knows.
  unfoldable pub logged :
      (c : ℕ) (w : Worker) (s s' : Prober) → Turn rt c w s s' → List Evidence → List Evidence
  logged c w s _ (enters e) log = log
  logged c w s _ (delay_over p e) log = log
  logged c w s _ (delay_cancelled p e d) log = log
  logged c w s _ (begins p e) log = log
  logged c w s _ (answers p cfg ip ok now e) log = probed (key rt w.policy) w.uid cfg ok ∷ log
  logged c w s _ (sends p m e h) log = log
  logged c w s _ (gives_up p e d) log = log
  logged c w s _ (ticks p e) log = log
  logged c w s _ (ends p e d) log = log

  -- What happens beside the reconciler: a goroutine's turn, the reader of the events, the end by `Start`.
  pub data Move (s : System) : System → Type 0 where
    turns :
        (c : ℕ) (w : Worker) (p : Prober)
        → s.prober.manager.workers c ≡ some w
        → (turn : Turn rt c w s.prober p)
        → Move s (record { prober = p; log = logged c w s.prober p turn s.log })
    received :
        (nn : NamespacedName) (rest : List NamespacedName)
        → s.prober.manager.events ≡ nn ∷ rest
        → Move s (on_manager (λ m. record m { events = rest }) s)
    stops : Move s (record s { prober = record s.prober { stopped = true } })

  pub data Moves (s : System) : System → Type 0 where
    stays : Moves s s
    goes_on : {s' s'' : System} → Moves s s' → Move s' s'' → Moves s s''

  -- The manager as the source of verdicts; `between` is what happens after each call of the reconciler, up to its
  -- next call of the prober. After `Snapshot`, the last one of a run, that is what happens while the run calls the API
  -- server, whose answers do not depend on the prober, and while it writes the status.
  abbrev pub source : (System → System) → ProbeSource System
  source between = record {
    sync = λ nn cfg targets s. between (record (on_manager (sync rt nn cfg targets) s) {
      log = made_by (key rt nn) targets s.prober.manager s.log;
    });
    set_seen_ready = λ nn uid s.
        between (record (on_manager (set_seen_ready rt nn uid) s) {
          log = ready (key rt nn) uid ∷ s.log;
        });
    snapshot = λ nn s. (snapshot rt nn s.prober.manager, between s);
    forget = λ nn s. between (on_manager (forget rt nn) s);
  }

  -- The reconciler is wired to the manager, and whatever happens between its calls are moves.
  pub record IsWired (env : Env System) : Type 0 where
    pub between : System → System
    pub wired : env.prober ≡ source between
    pub moving : (s : System) → Moves s (between s)

  -- A move, or a run of `Reconcile` with any cluster, at any time, for any policy, with the moves after each of its
  -- calls.
  pub data Step (s : System) : System → Type 0 where
    moves : {s' : System} → Move s s' → Step s s'
    runs :
        (env : Env System) (nn : NamespacedName) (effects : List Effect)
        → IsWired env
        → Step s (reconcile env nn (record { state = s; effects = effects })).2.state

  pub data Reachable : System → Type 0 where
    initial : Reachable new_system
    next : {s s' : System} → Reachable s → Step s s' → Reachable s'
