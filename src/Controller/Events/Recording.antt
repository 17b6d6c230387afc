-- ===== src/Controller/Events/Recording.antt =====
-- internal/controller/events.go, `recordingClient`: commands run over it as over the client under it.
use kubernetes_operator.Prelude.{
  String, ◌≡◌, refl, ap, ◌∙◌, Option, none, some, List, [], ◌∷◌, ◌++◌, ◌==◌, Bool-cases, inl, inr,
  concat,
}
use kubernetes_operator.Planner.Commands.{
  Command, add_coordinator, register_instance, update_coordinator_bolt_server,
  update_instance_bolt_server, set_instance_to_main, demote_instance, unregister_instance,
  remove_coordinator, yield_leadership, Outcome, Client, or_next, restored, restore_main, promote,
  run,
}
use kubernetes_operator.Topology.{Cluster}
use kubernetes_operator.Controller.Events.{
  Event, Recorded, Failure, data_instance_pod, promotion_event, recorded, recording, or_stop,
  run_commands,
}

-- The errors once one more candidate was refused.
abbrev also : List String → String → String → List String
also errs name reason = errs ++ concat ("promoting " ∷ name ∷ ": " ∷ reason ∷ []) ∷ []

-- The state of a recorded outcome, without the Events.
abbrev pub plain : {S A : Type 0} → A × Recorded S → A × S
plain o = (o.0, o.1.0)

module _ {S : Type 0} (cluster : Cluster) (leader : String) (client : Client S) where
  plain-restored :
      (restore : String) (errs : List String) (o : Outcome (Recorded S))
      → plain (restored restore errs o) ≡ restored restore errs (plain o)
  unfolding restored
  plain-restored restore errs (none, s) = refl
  plain-restored restore errs (some e, s) = refl

  plain-restore_main :
      (restore : String) (errs : List String) (s : S) (log : List Event)
      → plain (restore_main (recording cluster leader client) restore errs (s, log))
        ≡ restore_main client restore errs s
  unfolding restore_main recording
  plain-restore_main restore errs s log = elim (Bool-cases (restore == "")) [
    | inl blank ↦ rw blank refl
    | inr named ↦ rw named (plain-restored restore errs _)
  ]

  next_plain :
      (note : Option String → Event) (o : Outcome S) (log : List Event)
      (f : String → Recorded S → Outcome (Recorded S)) (g : String → S → Outcome S)
      → ((reason : String) (s : S) (l : List Event) → plain (f reason (s, l)) ≡ g reason s)
      → plain (or_next (recorded note o log) f) ≡ or_next o g
  unfolding recorded
  next_plain note (none, s) log f g same = refl
  next_plain note (some e, s) log f g same = same e s _

  plain-promote :
      (names : List String) (restore : String) (errs : List String) (s : S) (log : List Event)
      → plain (promote (recording cluster leader client) names restore errs (s, log))
        ≡ promote client names restore errs s
  unfolding promote recording
  plain-promote [] restore errs s log = plain-restore_main restore errs s log
  plain-promote (name ∷ names) restore errs s log =
      next_plain (promotion_event (data_instance_pod cluster name) name) (client.set_main name s)
        log
        (λ reason. promote (recording cluster leader client) names restore (also errs name reason))
        (λ reason. promote client names restore (also errs name reason))
        (λ reason s' l. plain-promote names restore (also errs name reason) s' l)

  plain-run :
      (c : Command) (s : S) (log : List Event)
      → plain (run (recording cluster leader client) c (s, log)) ≡ run client c s
  unfolding run recording
  plain-run (add_coordinator c) s log = refl
  plain-run (register_instance d) s log = refl
  plain-run (update_coordinator_bolt_server c) s log = refl
  plain-run (update_instance_bolt_server d) s log = refl
  plain-run (set_instance_to_main names restore) s log = plain-promote names restore [] s log
  plain-run (demote_instance n) s log = refl
  plain-run (unregister_instance n) s log = refl
  plain-run (remove_coordinator c) s log = refl
  plain-run (yield_leadership n) s log = refl

  stop_plain :
      (c : Command) (o : Outcome (Recorded S)) (f : Recorded S → Option Failure × Recorded S)
      (g : S → Option Failure × S)
      → ((s : S) (l : List Event) → plain (f (s, l)) ≡ g s)
      → plain (or_stop c o f) ≡ or_stop c (plain o) g
  unfolding or_stop
  stop_plain c (none, (s, l)) f g same = same s l
  stop_plain c (some e, (s, l)) f g same = refl

  -- The commands do over the recording client what they do over the client under it: the same command
  -- fails, with the same error, and the cluster is left in the same state.
  pub run_commands-plain :
      (cs : List Command) (s : S) (log : List Event)
      → plain (run_commands (recording cluster leader client) cs (s, log))
        ≡ run_commands client cs s
  unfolding run_commands
  run_commands-plain [] s log = refl
  run_commands-plain (c ∷ cs) s log =
      stop_plain c (run (recording cluster leader client) c (s, log)) _ _
        (λ s' l. run_commands-plain cs s' l)
      ∙ ap (λ o. or_stop c o (run_commands client cs)) (plain-run c s log)
