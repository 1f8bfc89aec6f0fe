-- ===== src/Cli/Signals.antt =====
-- cli.py: `_stop_signals`, the handlers that stop a daemon. The event loop keeps at most one handler
-- of a signal, and may refuse to.
use bedjet_local.Prelude.{
  ◌≡◌, Bool, true, false, Option, none, some, List, [], ◌∷◌, arith, if◌then◌else◌,
}

pub data Signal : Type 0 where
  sigterm sigint : Signal

-- What the loop has installed, and whether the event is set.
pub record Loop : Type 0 where
  pub on_term : Bool
  pub on_int : Bool
  pub stopping : Bool

unfoldable pub put_handler : Signal → Bool → Loop → Loop
put_handler sigterm present l = record l { on_term = present }
put_handler sigint present l = record l { on_int = present }

-- `loop.add_signal_handler` of each signal; the one that it refuses is passed over.
unfoldable pub install : (Signal → Bool) → List Signal → Loop → List Signal × Loop
unfolding put_handler
install accepts [] l = ([], l)
install accepts (sig ∷ sigs) l =
    let passed = install accepts sigs l in
    let rest = install accepts sigs (put_handler sig true l) in
    if accepts sig then (sig ∷ rest.0, rest.1) else passed

-- `loop.remove_signal_handler` of each that was installed.
unfoldable pub uninstall : List Signal → Loop → Loop
unfolding put_handler
uninstall [] l = l
uninstall (sig ∷ sigs) l = uninstall sigs (put_handler sig false l)

-- A signal that arrives with a handler sets the event; without one it ends the process.
unfoldable pub receive : Signal → Loop → Option Loop
receive sigterm l = if l.on_term then some (record l { stopping = true }) else none
receive sigint l = if l.on_int then some (record l { stopping = true }) else none

abbrev pub signals : List Signal
signals = sigterm ∷ sigint ∷ []

unfoldable pub idle : Loop
idle = record { on_term = false; on_int = false; stopping = false }

-- A handler stands for each signal that the loop takes, and none is left when the daemon is done.
pub signals_stop :
    (accepts : Signal → Bool)
    → let (installed, l) = install accepts signals idle in
      (l.on_term ≡ accepts sigterm) × (l.on_int ≡ accepts sigint) × (uninstall installed l ≡ idle)
unfolding install uninstall idle put_handler
signals_stop accepts = ground arith
