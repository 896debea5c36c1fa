-- ===== src/Cmd/Servers/Shutdown.antt =====
-- The shutdown of the two servers (cmd/fstorex-mds/main.go and cmd/fstorex-dn/main.go), whose
-- goroutine that accepts connections and whose `main` receive from one channel of signals.
use fstorex.Base.{◌≡◌, refl, Bool, true, false, arith}

-- Where `main` is: before its receive, which starts beside the goroutine; in it; or behind it, where
-- it closes the listener and ends.
pub data Main : Type 0 where
  before parked ended : Main

-- The buffer of `sigCh`, which holds one signal; whether the loop that accepts runs; where `main` is.
pub record Serving : Type 0 where
  pub pending : Bool
  pub accepting : Bool
  pub main : Main

-- What a server does by itself: it accepts a connection; an `Accept` fails and no signal is there; an
-- `Accept` fails and the loop takes the signal; `main` finds no signal and waits for one; `main`
-- takes the signal. Whoever waits in a receive is handed the next signal, so none is in the buffer.
pub data Runs (s : Serving) (t : Serving) : Type 0 where
  accepts : s.accepting ≡ true → t ≡ s → Runs s t
  goes_on : s.accepting ≡ true → s.pending ≡ false → t ≡ s → Runs s t
  leaves :
      s.accepting ≡ true
      → s.pending ≡ true
      → t ≡ record s { pending = false; accepting = false }
      → Runs s t
  parks : s.main ≡ before → s.pending ≡ false → t ≡ record s { main = parked } → Runs s t
  takes :
      s.main ≡ before → s.pending ≡ true → t ≡ record s { pending = false; main = ended } → Runs s t

-- A signal is handed to `main` where it waits; else it goes into the buffer, or is dropped where that
-- is full.
abbrev pub signalled : Serving → Serving
signalled s = elim s.main [
  | before ↦ record s { pending = true }
  | parked ↦ record s { main = ended }
  | ended ↦ record s { pending = true }
]

pub data RunsOn (s : Serving) : Serving → Type 0 where
  stays : RunsOn s s
  then_runs : {t u : Serving} → RunsOn s t → Runs t u → RunsOn s u

record IsDeaf (s : Serving) : Type 0 where
  silent : s.pending ≡ false
  closed : s.accepting ≡ false
  waits : s.main ≡ parked

Runs-IsDeaf : (s t : Serving) → Runs s t → IsDeaf s → IsDeaf t
Runs-IsDeaf s t (accepts a same) d = ground (arith, d.closed)
Runs-IsDeaf s t (goes_on a p same) d = ground (arith, d.closed)
Runs-IsDeaf s t (leaves a p same) d = ground (arith, d.closed)
Runs-IsDeaf s t (parks w p same) d = cc (w, d.waits)
Runs-IsDeaf s t (takes w p same) d = cc (w, d.waits)

RunsOn-IsDeaf : {s t : Serving} → IsDeaf s → RunsOn s t → IsDeaf t
RunsOn-IsDeaf d stays = d
RunsOn-IsDeaf d (then_runs {t = t} {u = u} earlier step) =
    Runs-IsDeaf t u step (RunsOn-IsDeaf d earlier)

-- A server whose `main` waits, and that accepts no connection.
abbrev pub IsHung : Serving → Type 0
IsHung t = (t.main ≡ parked) × (t.accepting ≡ false)

-- A signal can be lost that comes before `main` waits for it: where an `Accept` fails in between, the
-- server may come to a state in which it accepts no connection any more, and does not end without
-- another signal.
pub signalled-may_hang :
    (s : Serving)
    → s.accepting ≡ true
    → s.main ≡ before
    → (t : Serving) × RunsOn (signalled s) t × ((u : Serving) → RunsOn t u → IsHung u)
signalled-may_hang s runs early =
    let heard : Serving = record s { pending = true } in
    let left : Serving = record s { pending = false; accepting = false } in
    let t : Serving = record left { main = parked } in
    let start : RunsOn (signalled s) heard = rw early stays in
    let step : Runs heard left = leaves runs refl refl in
    let last : Runs left t = parks early refl refl in
    (
      t,
      then_runs (then_runs start step) last,
      λ u on.
          let d : IsDeaf u =
            RunsOn-IsDeaf (record { silent = refl; closed = refl; waits = refl }) on in
          (d.waits, d.closed),
    )
