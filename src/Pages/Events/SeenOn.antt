-- ===== src/Pages/Events/SeenOn.antt =====
-- The filter on servers of the events page: from which servers an event's snapshots are.
use jvm_scout.Base.{
  ◌≡◌, refl, sym, ap, ◌∙◌, subst, ◌↔◌, ◌⊎◌, inl, inr, arith, [], ◌∷◌, List, Option, none, some,
  Bool, true, false, ◌&&◌, ◌||◌, Bool-cases, Text, text_dec, has, has-add, insert, lookup,
  lookup-insert, Mem, any, ◌or_else◌, ◌==◌,
}
use jvm_scout.Client.Events.{EventRow, SnapshotRow}
use jvm_scout.Pages.Events.Rows.{
  none_chosen, with_server, has_server, servers_from, servers_by_event,
}

-- A snapshot of the event is from one of the servers.
abbrev pub IsSeenOn : List Text → List SnapshotRow → EventRow → Type 0
IsSeenOn set snapshots e =
    (id : Text) × (Mem id set
      × ((s : SnapshotRow) × (Mem s snapshots × ((s.event_id ≡ e.id) × (s.server_id ≡ some id)))))

abbrev is_server : Text → Option Text → Bool
is_server id none = false
is_server id (some x) = x == id

abbrev is_from : Text → Text → SnapshotRow → Bool
is_from event id s = s.event_id == event && is_server id s.server_id

has-with_server :
    (id : Text) (server : Option Text) (set : List Text)
    → has id (with_server server set) ≡ (has id set || is_server id server)
has-with_server id none set = ground arith
has-with_server id (some x) set = has-add id x set

inserted_has :
    (event id key : Text) (server : Option Text) (m : List (Text × List Text))
    → has id (lookup event (insert key (with_server server (lookup key m or_else [])) m) or_else [])
      ≡ (has id (lookup event m or_else []) || (key == event && is_server id server))
inserted_has event id key server m =
    let set = with_server server (lookup key m or_else []) in
    rw (lookup-insert event key set m) (elim (Bool-cases (key == event)) [
      | inl here ↦
          let e : key ≡ event = ground arith in
          rw here (
            subst
              (λ k.
                has id (with_server server (lookup k m or_else []))
                ≡ (has id (lookup event m or_else []) || is_server id server))
              (sym e) (has-with_server id server (lookup event m or_else [])))
      | inr other ↦ rw other (ground arith)
    ])

servers_from-has :
    (event id : Text) (m : List (Text × List Text)) (ss : List SnapshotRow)
    → has id (lookup event (servers_from m ss) or_else [])
      ≡ (has id (lookup event m or_else []) || any (is_from event id) ss)
unfolding servers_from
servers_from-has event id m [] = ground arith
servers_from-has event id m (s ∷ ss) =
    let set = with_server s.server_id (lookup s.event_id m or_else []) in
    servers_from-has event id (insert s.event_id set m) ss
    ∙ (ground (arith, inserted_has event id s.event_id s.server_id m))

any_of_Mem :
    {A : Type 0} (p : A → Bool) (xs : List A) (x : A) → Mem x xs → p x ≡ true → any p xs ≡ true
any_of_Mem p [] x m h = absurd m
any_of_Mem p (y ∷ ys) x (inl e) h = ground arith
any_of_Mem p (y ∷ ys) x (inr m) h = ground (arith, any_of_Mem p ys x m h)

Mem_of_any :
    {A : Type 0} (p : A → Bool) (xs : List A)
    → any p xs ≡ true
    → (x : A) × (Mem x xs × (p x ≡ true))
Mem_of_any p [] h = cc
Mem_of_any p (x ∷ xs) h = elim (Bool-cases (p x)) [
  | inl found ↦ (x, (inl refl, found))
  | inr fails ↦ let (y, (m, k)) = Mem_of_any p xs (rw fails at h) in (y, (inr m, k))
]

-- The servers of an event are those of its snapshots.
servers_by_event-has :
    (event id : Text) (ss : List SnapshotRow)
    → has id (lookup event (servers_by_event ss) or_else []) ≡ any (is_from event id) ss
unfolding has lookup
servers_by_event-has event id ss = servers_from-has event id [] ss

is_server-true : (id : Text) (o : Option Text) → (is_server id o ≡ true) ↔ (o ≡ some id)
is_server-true id none = (λ h. cc, λ h. cc)
is_server-true id (some x) = (λ h. ap some (ground arith), λ h. ground arith)

is_from-true :
    (event id : Text) (s : SnapshotRow)
    → (is_from event id s ≡ true) ↔ ((s.event_id ≡ event) × (s.server_id ≡ some id))
is_from-true event id s = (
  λ h. (ground arith, (is_server-true id s.server_id).0 (ground arith)),
  λ h. let k = (is_server-true id s.server_id).1 h.1 in let e = h.0 in ground arith,
)

any_nowhere : (set : List Text) → any (λ id. has id []) set ≡ false
unfolding has
any_nowhere [] = refl
any_nowhere (x ∷ xs) = any_nowhere xs

-- The servers that were looked up, none of them when there is no entry.
looked_up : (set : List Text) (o : Option (List Text)) → Bool
looked_up set o = elim o [ none ↦ false | some servers ↦ any (λ id. has id servers) set ]

looked_up-any :
    (set : List Text) (o : Option (List Text))
    → looked_up set o ≡ any (λ id. has id (o or_else [])) set
unfolding looked_up
looked_up-any set none = sym (any_nowhere set)
looked_up-any set (some servers) = refl

pub has_server-IsSeenOn :
    (set : List Text) (ss : List SnapshotRow) (e : EventRow)
    → (has_server set (servers_by_event ss) e ≡ true) ↔ ((set ≡ []) ⊎ IsSeenOn set ss e)
unfolding has_server looked_up
has_server-IsSeenOn [] ss e = (λ h. inl refl, λ h. refl)
has_server-IsSeenOn (x ∷ xs) ss e =
    let found = lookup e.id (servers_by_event ss) in
    (
      λ h.
          let (id, (chosen, k)) =
            Mem_of_any (λ i. has i (found or_else [])) (x ∷ xs)
              (sym (looked_up-any (x ∷ xs) found) ∙ h) in
          let (s, (m, from)) =
            Mem_of_any (is_from e.id id) ss (sym (servers_by_event-has e.id id ss) ∙ k) in
          inr (id, (chosen, (s, (m, (is_from-true e.id id s).0 from)))),
      λ h. elim h [
        | inl none_chosen ↦ cc
        | inr (id, (chosen, (s, (m, from)))) ↦
            looked_up-any (x ∷ xs) found
            ∙ any_of_Mem (λ i. has i (found or_else [])) (x ∷ xs) id chosen
                (servers_by_event-has e.id id ss
                  ∙ any_of_Mem (is_from e.id id) ss s m ((is_from-true e.id id s).1 from))
      ],
    )
