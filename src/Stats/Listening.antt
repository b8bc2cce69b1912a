-- ===== src/Stats/Listening.antt =====
-- src/stats.c: the statistics clients, each with a queue of events. A listener's address is its id; the global list
-- is _event_listeners from its head on. The mutexes make each of the steps below one.
use mathlib.Core.Option.{map}
use checkedc_icecast.Base.{
  ℕ, ◌≡◌, ◌≢◌, refl, sym, ap, ◌∙◌, inl, inr, List, [], ◌∷◌, ◌++◌, Option, none, some, ◌==◌, ==_iff,
  if◌then◌else◌, Bytes, append_assoc, append-nil, Bool-cases, some_path, if_true, if_false, arith,
}
use checkedc_icecast.Stats.{Event, event_set, StatsNode}

-- event_listener_t.
pub record Listener : Type 0 where
  pub id : ℕ
  pub queue : List Event

unfoldable pub copy_event : Event → Event
copy_event event = record {
  source = event.source;
  name = event.name;
  value = event.value;
  action = event_set;
}

unfoldable pub make_event_from_node : Bytes → StatsNode → Option Bytes → Event
make_event_from_node name node source = record {
  source = source;
  name = some name;
  value = some node.value;
  action = event_set;
}

unfoldable pub add_event_to_queue : Event → List Event → List Event
add_event_to_queue event queue = queue ++ event ∷ []

unfoldable pub get_event_from_queue : List Event → List Event × Option Event
get_event_from_queue [] = ([], none)
get_event_from_queue (event ∷ queue) = (queue, some event)

-- An event that was processed goes to every listener.
unfoldable pub deliver : Event → List Listener → List Listener
deliver event [] = []
deliver event (listener ∷ listeners) =
    record listener { queue = add_event_to_queue (copy_event event) listener.queue }
    ∷ deliver event listeners

-- The events of the values that there are, in the order of the trees.
unfoldable pub snapshot : List (Option Bytes × (Bytes × StatsNode)) → List Event
snapshot [] = []
snapshot ((source, (name, node)) ∷ values) =
    add_event_to_queue (make_event_from_node name node source) [] ++ snapshot values

unfoldable pub register_listener :
    ℕ → List (Option Bytes × (Bytes × StatsNode)) → List Listener → List Listener
register_listener id values listeners = record { id = id; queue = snapshot values } ∷ listeners

unfoldable pub unregister_listener : ℕ → List Listener → List Listener
unregister_listener id [] = []
unregister_listener id (listener ∷ listeners) =
    let rest = unregister_listener id listeners in
    if listener.id == id then listeners else listener ∷ rest

-- A client's thread takes the next event from its queue.
unfoldable pub take_event : ℕ → List Listener → List Listener × Option Event
take_event id [] = ([], none)
take_event id (listener ∷ listeners) =
    let rest = take_event id listeners in
    let got = get_event_from_queue listener.queue in
    if listener.id == id
    then (record listener { queue = got.0 } ∷ listeners, got.1)
    else (listener ∷ rest.0, rest.1)

-- What the threads do, one after another.
pub data Act : Type 0 where
  processes : Event → Act
  registers : ℕ → List (Option Bytes × (Bytes × StatsNode)) → Act
  unregisters : ℕ → Act
  takes : ℕ → Act

unfoldable pub queue_of : ℕ → List Listener → Option (List Event)
queue_of id [] = none
queue_of id (listener ∷ listeners) =
    let rest = queue_of id listeners in if listener.id == id then some listener.queue else rest

unfoldable pub act : Act → List Listener → List Listener
act (processes event) listeners = deliver event listeners
act (registers id values) listeners = register_listener id values listeners
act (unregisters id) listeners = unregister_listener id listeners
act (takes id) listeners = (take_event id listeners).0

unfoldable pub run : List Act → List Listener → List Listener
run [] listeners = listeners
run (a ∷ acts) listeners = run acts (act a listeners)

abbrev pub to_list : Option Event → List Event
to_list none = []
to_list (some event) = event ∷ []

-- The events that the client takes in a run, and those that are processed in it.
unfoldable pub taken_in : ℕ → Act → List Listener → List Event
taken_in me (processes event) listeners = []
taken_in me (registers id values) listeners = []
taken_in me (unregisters id) listeners = []
taken_in me (takes id) listeners = if id == me then to_list (take_event id listeners).1 else []

unfoldable pub taken : ℕ → List Act → List Listener → List Event
taken me [] listeners = []
taken me (a ∷ acts) listeners = taken_in me a listeners ++ taken me acts (act a listeners)

unfoldable pub sent_by : Act → List Event
sent_by (processes event) = copy_event event ∷ []
sent_by (registers id values) = []
sent_by (unregisters id) = []
sent_by (takes id) = []

unfoldable pub sent : List Act → List Event
sent [] = []
sent (a ∷ acts) = sent_by a ++ sent acts

-- The client stays, and nobody else has its address.
abbrev pub Leaves : ℕ → Act → Type 0
Leaves me (processes event) = Unit
Leaves me (registers id values) = id ≢ me
Leaves me (unregisters id) = id ≢ me
Leaves me (takes id) = Unit

abbrev pub AllLeave : ℕ → List Act → Type 0
AllLeave me [] = Unit
AllLeave me (a ∷ acts) = Leaves me a × AllLeave me acts

deliver-queue :
    (me : ℕ) (event : Event) (ls : List Listener)
    → queue_of me (deliver event ls) ≡ map (λ q. q ++ copy_event event ∷ []) (queue_of me ls)
unfolding queue_of deliver add_event_to_queue
deliver-queue me event [] = refl
deliver-queue me event (l ∷ ls) = ground (arith, deliver-queue me event ls)

unregister-queue :
    (me id : ℕ) (ls : List Listener)
    → id ≢ me
    → queue_of me (unregister_listener id ls) ≡ queue_of me ls
unfolding queue_of unregister_listener
unregister-queue me id [] h = refl
unregister-queue me id (l ∷ ls) h = ground (arith, unregister-queue me id ls h)

register-queue :
    (me id : ℕ) (values : List (Option Bytes × (Bytes × StatsNode))) (ls : List Listener)
    → id ≢ me
    → queue_of me (register_listener id values ls) ≡ queue_of me ls
unfolding queue_of register_listener
register-queue me id values ls h = ground arith

take_other :
    (me id : ℕ) (ls : List Listener) → id ≢ me → queue_of me (take_event id ls).0 ≡ queue_of me ls
unfolding queue_of take_event
take_other me id [] h = refl
take_other me id (l ∷ ls) h = ground (arith, take_other me id ls h)

get_whole : (q : List Event) → to_list (get_event_from_queue q).1 ++ (get_event_from_queue q).0 ≡ q
unfolding get_event_from_queue
get_whole [] = refl
get_whole (event ∷ q) = refl

none-queue : (q : List Event) → ¬ (none ≡ some q)
none-queue q e =
    omega (arith, ap (λ (o : Option (List Event)). elim o as (λ _. ℕ) [ none ↦ 0 | some x ↦ 1 ]) e)

take_here :
    (me : ℕ) (ls : List Listener) (q : List Event)
    → queue_of me ls ≡ some q
    → (p : List Event) × (queue_of me (take_event me ls).0 ≡ some p)
      × (to_list (take_event me ls).1 ++ p ≡ q)
unfolding queue_of take_event get_event_from_queue
take_here me [] q h = absurd (none-queue q h)
take_here me (l ∷ ls) q h = elim (Bool-cases (l.id == me)) [
  | inl e ↦
      let same : l.queue ≡ q = some_path l.queue q (sym (if_true _ _ _ e) ∙ h) in
      rw e ((get_event_from_queue l.queue).0, if_true _ _ _ e, get_whole l.queue ∙ same)
  | inr e ↦
      let rest = take_here me ls q (sym (if_false _ _ _ e) ∙ h) in
      rw e (rest.0, if_false _ _ _ e ∙ rest.1, rest.2)
]

act-queue :
    (me : ℕ) (a : Act) (ls : List Listener) (q : List Event)
    → Leaves me a
    → queue_of me ls ≡ some q
    → (p : List Event) × (queue_of me (act a ls) ≡ some p)
      × (taken_in me a ls ++ p ≡ q ++ sent_by a)
unfolding act taken_in sent_by
act-queue me (processes event) ls q h e = (
  q ++ copy_event event ∷ [],
  deliver-queue me event ls ∙ ap (map (λ x. x ++ copy_event event ∷ [])) e,
  refl,
)
act-queue me (registers id values) ls q h e =
    (q, register-queue me id values ls h ∙ e, sym (append-nil q))
act-queue me (unregisters id) ls q h e = (q, unregister-queue me id ls h ∙ e, sym (append-nil q))
act-queue me (takes id) ls q h e = elim (Bool-cases (id == me)) [
  | inl same ↦
      let is : id ≡ me = (==_iff id me).0 same in
      let t = take_here me ls q e in
      (
        t.0,
        ap (λ x. queue_of me (take_event x ls).0) is ∙ t.1,
        ap (λ x. x ++ t.0) (if_true _ _ _ same ∙ ap (λ x. to_list (take_event x ls).1) is)
            ∙ t.2
            ∙ sym (append-nil q),
      )
  | inr other ↦ (
    q,
    take_other me id ls (ground (arith, other)) ∙ e,
    ap (λ x. x ++ q) (if_false _ _ _ other) ∙ sym (append-nil q),
  )
]

-- In whatever order the threads act, a statistics client that stays, at an address that nobody else has, takes
-- exactly what stood on its queue and then a copy of each event that is processed, in order: what it has
-- taken and what is still on its queue are these events, none lost and none twice.
pub run-taken :
    (me : ℕ) (acts : List Act) (ls : List Listener) (q : List Event)
    → AllLeave me acts
    → queue_of me ls ≡ some q
    → (p : List Event) × (queue_of me (run acts ls) ≡ some p)
      × (taken me acts ls ++ p ≡ q ++ sent acts)
unfolding run taken sent
run-taken me [] ls q h e = (q, e, sym (append-nil q))
run-taken me (a ∷ acts) ls q h e =
    let one = act-queue me a ls q h.0 e in
    let rest = run-taken me acts (act a ls) one.0 h.1 one.1 in
    (
      rest.0,
      rest.1,
      append_assoc (taken_in me a ls) (taken me acts (act a ls)) rest.0
          ∙ ap (λ x. taken_in me a ls ++ x) rest.2
          ∙ sym (append_assoc (taken_in me a ls) one.0 (sent acts))
          ∙ ap (λ x. x ++ sent acts) one.2
          ∙ append_assoc q (sent_by a) (sent acts),
    )
