-- ===== src/Planner/Order.antt =====
-- internal/planner/planner.go: the phases of a plan.
use kubernetes_operator.Prelude.{
  ℕ, ◌≤◌, String, ◌≡◌, refl, ap, inl, inr, Bool, not, ◌&&◌, List, [], ◌∷◌, ◌++◌, emit, In,
  In-append, append_assoc, In_of_In-emit, Bool-cases, ◌==◌, arith,
}
use kubernetes_operator.Memgraph.{Instance, DataInstanceSpec, ReplicationLag}
use kubernetes_operator.Planner.Commands.{
  Command, add_coordinator, register_instance, update_coordinator_bolt_server,
  update_instance_bolt_server, set_instance_to_main, demote_instance, unregister_instance,
  remove_coordinator, yield_leadership,
}
use kubernetes_operator.Planner.View.{Topology, Survey, survey, leader_name}
use kubernetes_operator.Planner.{
  add_coordinators, register_instances, coordinator_updates, instance_updates, bolt_server_updates,
  bootstrap, promotion, unregistrations, removals, yield_from, yields, demotions, registrations,
  retirement, plan,
}
use kubernetes_operator.Planner.Loops.{
  add_coordinators-emit, register_instances-emit, coordinator_updates-emit, instance_updates-emit,
  unregistrations-emit, removals-emit,
}

-- Registrations, address updates, demotion, promotion, unregistrations, removals, yield.
abbrev pub phase : Command → ℕ
phase (add_coordinator c) = 0
phase (register_instance d) = 1
phase (update_coordinator_bolt_server c) = 2
phase (update_instance_bolt_server d) = 3
phase (demote_instance n) = 4
phase (set_instance_to_main names n) = 5
phase (unregister_instance n) = 6
phase (remove_coordinator c) = 7
phase (yield_leadership n) = 8

-- No command is followed by one of an earlier phase.
abbrev pub InOrder : List Command → Type 0
InOrder [] = Unit
InOrder (c ∷ cs) = ((d : Command) → In d cs → phase c ≤ phase d) × InOrder cs

-- The phases of a list lie between two bounds.
abbrev pub Between : ℕ → ℕ → List Command → Type 0
Between lo hi cs = (c : Command) → In c cs → (lo ≤ phase c) × (phase c ≤ hi)

InOrder-same : (k : ℕ) (cs : List Command) → Between k k cs → InOrder cs
InOrder-same k [] h = tt
InOrder-same k (c ∷ cs) h =
    (λ d i. omega (arith, h c (inl refl), h d (inr i)), InOrder-same k cs (λ d i. h d (inr i)))

-- In order, and between the bounds.
abbrev pub Phased : ℕ → ℕ → List Command → Type 0
Phased lo hi cs = InOrder cs × Between lo hi cs

Phased-same : (k : ℕ) (cs : List Command) → Between k k cs → Phased k k cs
Phased-same k cs h = (InOrder-same k cs h, h)

InOrder-append :
    (k : ℕ) (xs ys : List Command)
    → InOrder xs
    → InOrder ys
    → ((c : Command) → In c xs → phase c ≤ k)
    → ((c : Command) → In c ys → k ≤ phase c)
    → InOrder (xs ++ ys)
InOrder-append k [] ys a b low high = b
InOrder-append k (x ∷ xs) ys a b low high = (
  λ d i. elim (In-append d xs ys i) [
    | inl l ↦ a.0 d l
    | inr r ↦ omega (arith, low x (inl refl), high d r)
  ],
  InOrder-append k xs ys a.1 b (λ c i. low c (inr i)) high,
)

-- A list of later phases may follow.
pub Phased-append :
    (lo k l hi : ℕ) (xs ys : List Command)
    → lo ≤ k
    → k ≤ l
    → l ≤ hi
    → Phased lo k xs
    → Phased l hi ys
    → Phased lo hi (xs ++ ys)
Phased-append lo k l hi xs ys p q r a b = (
  InOrder-append k xs ys a.0 b.0 (λ c i. (a.1 c i).1) (λ c i. omega (arith, b.1 c i)),
  λ c i. elim (In-append c xs ys i) [
    | inl h ↦ omega (arith, a.1 c h)
    | inr h ↦ omega (arith, b.1 c h)
  ],
)

loop-Between :
    {A : Type 0} (k : ℕ) (p : A → Bool) (f : A → Command) (xs : List A) (cs : List Command)
    → cs ≡ emit p f xs
    → ((a : A) → phase (f a) ≡ k)
    → Between k k cs
loop-Between k p f xs cs loop same c h =
    let (a, i, q, e) = In_of_In-emit p f c xs (rw loop at h) in omega (arith, same a, ap phase e)

module _ (t : Topology) (s : Survey) (leader : String) where
  adds-Between : Between 0 0 (add_coordinators s.registered t.coordinators)
  adds-Between =
      loop-Between 0 _ _ _ _ (add_coordinators-emit s.registered t.coordinators) (λ c. refl)

  registers-Between : Between 1 1 (register_instances s.registered t.data_instances)
  registers-Between =
      loop-Between 1 _ _ _ _ (register_instances-emit s.registered t.data_instances) (λ d. refl)

  coordinator_updates-Between : Between 2 2 (coordinator_updates s.registered t.coordinators)
  coordinator_updates-Between =
      loop-Between 2 _ _ _ _ (coordinator_updates-emit s.registered t.coordinators) (λ c. refl)

  instance_updates-Between : Between 3 3 (instance_updates s.registered t.data_instances)
  instance_updates-Between =
      loop-Between 3 _ _ _ _ (instance_updates-emit s.registered t.data_instances) (λ d. refl)

  pub demotions-Between : Between 4 4 (demotions s.handover s.mains.retiring_main)
  unfolding demotions
  demotions-Between c h = elim (Bool-cases s.handover) [
    | inl on ↦ elim (rw on at h) [ inl e ↦ omega (arith, ap phase e) | inr none ↦ absurd none ]
    | inr off ↦ absurd (rw off at h)
  ]

  bootstrap-Between : (ds : List DataInstanceSpec) → Between 5 5 (bootstrap s.registered ds)
  unfolding bootstrap
  bootstrap-Between [] c h = absurd h
  bootstrap-Between (d ∷ ds) c (inl e) = omega (arith, ap phase e)
  bootstrap-Between (d ∷ ds) c (inr h) = absurd h

  pub promotion-Between :
      Between 5 5 (promotion s.handover s.mains s.successors s.registered t.data_instances)
  unfolding promotion
  promotion-Between c h = elim (Bool-cases (s.handover && not s.mains.has_main)) [
    | inl on ↦ elim (rw on at h) [ inl e ↦ omega (arith, ap phase e) | inr none ↦ absurd none ]
    | inr off ↦ elim (Bool-cases (s.mains.retiring_main == "" && not s.mains.has_main)) [
      | inl boot ↦ bootstrap-Between t.data_instances c (rw (off, boot) at h)
      | inr neither ↦ absurd (rw (off, neither) at h)
    ]
  ]

  pub unregistrations-Between :
      Between 6 6
        (unregistrations s.handover s.mains.retiring_main s.registered t.retiring_data_instances)
  unregistrations-Between =
      loop-Between 6 _ _ _ _
        (unregistrations-emit s.registered s.handover s.mains.retiring_main
          t.retiring_data_instances)
        (λ d. refl)

  pub removals-Between : Between 7 7 (removals s.registered leader t.retiring_coordinators)
  removals-Between =
      loop-Between 7 _ _ _ _ (removals-emit s.registered leader t.retiring_coordinators) (λ c. refl)

pub yields-Between : (y : String) → Between 8 8 (yields y)
unfolding yields
yields-Between y c h = elim (Bool-cases (y == "")) [
  | inl none ↦ absurd (rw none at h)
  | inr some ↦ elim (rw some at h) [ inl e ↦ omega (arith, ap phase e) | inr none ↦ absurd none ]
]

module _ (t : Topology) (s : Survey) (leader : String) where
  pub registrations-Phased : Phased 0 3 (registrations t s)
  unfolding registrations bolt_server_updates
  registrations-Phased =
      Phased-append 0 0 1 3 _ _ (omega arith) (omega arith) (omega arith)
        (Phased-same 0 _ (adds-Between t s leader))
        (Phased-append 1 1 2 3 _ _ (omega arith) (omega arith) (omega arith)
          (Phased-same 1 _ (registers-Between t s leader))
          (Phased-append 2 2 3 3 _ _ (omega arith) (omega arith) (omega arith)
            (Phased-same 2 _ (coordinator_updates-Between t s leader))
            (Phased-same 3 _ (instance_updates-Between t s leader))))

  -- The retirement without the yield that may end it.
  pub before_yield : List Command
  before_yield =
      demotions s.handover s.mains.retiring_main
      ++ (promotion s.handover s.mains s.successors s.registered t.data_instances
          ++ (unregistrations s.handover s.mains.retiring_main s.registered
                t.retiring_data_instances
              ++ removals s.registered leader t.retiring_coordinators))

  pub before_yield-Phased : Phased 4 7 before_yield
  unfolding before_yield
  before_yield-Phased =
      Phased-append 4 4 5 7 _ _ (omega arith) (omega arith) (omega arith)
        (Phased-same 4 _ (demotions-Between t s leader))
        (Phased-append 5 5 6 7 _ _ (omega arith) (omega arith) (omega arith)
          (Phased-same 5 _ (promotion-Between t s leader))
          (Phased-append 6 6 7 7 _ _ (omega arith) (omega arith) (omega arith)
            (Phased-same 6 _ (unregistrations-Between t s leader))
            (Phased-same 7 _ (removals-Between t s leader))))

  pub retirement_split :
      retirement t s leader ≡ before_yield ++ yields (yield_from leader t.retiring_coordinators "")
  unfolding retirement before_yield
  retirement_split = simp append_assoc

  pub retirement-Phased : Phased 4 8 (retirement t s leader)
  retirement-Phased = rw retirement_split (
      Phased-append 4 7 8 8 _ _ (omega arith) (omega arith) (omega arith) before_yield-Phased
        (Phased-same 8 _ (yields-Between (yield_from leader t.retiring_coordinators ""))))

-- A plan goes through the phases in order: it adds coordinators, registers data instances, updates
-- addresses of coordinators and of data instances, demotes, promotes, unregisters, removes
-- coordinators, and yields.
pub plan-InOrder :
    (t : Topology) (o : List Instance) (lag : List ReplicationLag) → InOrder (plan t o lag)
unfolding plan
plan-InOrder t o lag =
    (Phased-append 0 3 4 8 _ _ (omega arith) (omega arith) (omega arith)
      (registrations-Phased t (survey t o lag) (leader_name o))
      (retirement-Phased t (survey t o lag) (leader_name o))).0
