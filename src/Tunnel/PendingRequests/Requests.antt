-- ===== src/Tunnel/PendingRequests/Requests.antt =====
-- The table as a map from the pending requests to their deadlines, and its size.
use kb_1_daemon.Prelude.{
  ℕ, ◌≤◌, ◌<◌, ◌≡◌, refl, [], ◌∷◌, ◌++◌, Option, none, some, arith, Text, text_eq, text_eq_iff, leb,
  if◌then◌else◌, Option-cases, Bool-cases, inl, inr, length, length-append, true, false, leb-false,
  leb→le, ◌⊎◌,
}
use kb_1_daemon.Tunnel.PendingRequests.{
  DeadlineMap, RelayPendingRequestTable, deadline_for, live, expire, add, create, has, delete,
  resolve, cancel, clear, deadline_of,
}
use kb_1_daemon.Tunnel.PendingRequests.Deadlines.{IsUnique}

-- No request stands twice, and there are not more than the limit.
pub record IsTable (t : RelayPendingRequestTable) : Type 0 where
  pub unique : IsUnique t.deadlines
  pub few : length t.deadlines ≤ t.max_pending

deadline_for-add :
    (id j : Text) (at : ℕ) (m : DeadlineMap)
    → deadline_for j m ≡ none
    → deadline_for id (m ++ (j, at) ∷ []) ≡ (if text_eq j id then some at else deadline_for id m)
unfolding deadline_for
deadline_for-add id j at [] h = refl
deadline_for-add id j at ((k, b) ∷ m) h =
    ground (arith, text_eq_iff j id, text_eq_iff k id, text_eq_iff k j, deadline_for-add id j at m)

IsUnique-add :
    (j : Text) (at : ℕ) (m : DeadlineMap)
    → IsUnique m
    → deadline_for j m ≡ none
    → IsUnique (m ++ (j, at) ∷ [])
unfolding deadline_for
IsUnique-add j at [] u h = (refl, tt)
IsUnique-add j at ((k, b) ∷ m) (f, u) h = (
  ground (arith, text_eq_iff j k, text_eq_iff k j, deadline_for-add k j at m),
  IsUnique-add j at m u (ground arith),
)

deadline_for-delete :
    (id j : Text) (m : DeadlineMap)
    → IsUnique m
    → deadline_for id (delete j m) ≡ (if text_eq j id then none else deadline_for id m)
unfolding deadline_for delete
deadline_for-delete id j [] u = ground arith
deadline_for-delete id j ((k, b) ∷ m) (f, u) =
    ground (arith, text_eq_iff j id, text_eq_iff k id, text_eq_iff k j, deadline_for-delete id j m)

IsUnique-delete : (j : Text) (m : DeadlineMap) → IsUnique m → IsUnique (delete j m)
unfolding deadline_for delete
IsUnique-delete j [] u = tt
IsUnique-delete j ((k, b) ∷ m) (f, u) = elim (Bool-cases (text_eq k j)) [
  | inl e ↦ rw e u
  | inr e ↦ rw e (ground (arith, deadline_for-delete k j m u), IsUnique-delete j m u)
]

length-delete : (j : Text) (m : DeadlineMap) → length (delete j m) ≤ length m
unfolding delete
length-delete j [] = omega arith
length-delete j ((k, b) ∷ m) = ground (arith, length-delete j m)

live-none :
    (now : ℕ) (k : Text) (m : DeadlineMap)
    → deadline_for k m ≡ none
    → deadline_for k (live now m) ≡ none
unfolding deadline_for live
live-none now k [] h = refl
live-none now k ((j, at) ∷ m) h = ground (arith, live-none now k m)

IsUnique-live : (now : ℕ) (m : DeadlineMap) → IsUnique m → IsUnique (live now m)
unfolding live
IsUnique-live now [] u = tt
IsUnique-live now ((j, at) ∷ m) (f, u) = elim (Bool-cases (leb at now)) [
  | inl e ↦ rw e (IsUnique-live now m u)
  | inr e ↦ rw e (live-none now j m f, IsUnique-live now m u)
]

length-live : (now : ℕ) (m : DeadlineMap) → length (live now m) ≤ length m
unfolding live
length-live now [] = omega arith
length-live now ((j, at) ∷ m) = ground (arith, length-live now m)

add-IsTable :
    (t : RelayPendingRequestTable) (id : Text) (deadline timeout : Option ℕ) (now : ℕ)
    → IsTable t
    → IsTable (add t id deadline timeout now).0
unfolding add
add-IsTable t id deadline timeout now h = elim (Option-cases (deadline_for id t.deadlines)) [
  | inr (at, e) ↦ rw (e, add) h
  | inl e ↦
      rw (e, add)
        (elim (Bool-cases (leb t.max_pending (length t.deadlines))) [
          | inl full ↦ rw full h
          | inr room ↦ rw room (
              let at = deadline_of deadline timeout now t.default_timeout_ms in
              record {
                unique = IsUnique-add id at t.deadlines h.unique e;
                few = omega (
                  arith,
                  length-append t.deadlines ((id, at) ∷ []),
                  leb-false t.max_pending (length t.deadlines) room,
                );
              })
        ])
]

-- A new table holds no request twice and no more than its limit, and it stays so when a request is
-- added or refused, resolved, cancelled or expires, and when the table is cleared.
pub operations-IsTable :
    (t : RelayPendingRequestTable) (id : Text) (deadline timeout max : Option ℕ) (now : ℕ)
    → IsTable t
    → IsTable (create max timeout)
      × IsTable (add t id deadline timeout now).0
      × IsTable (resolve t id).0
      × IsTable (cancel t id).0
      × IsTable (expire t now).0
      × IsTable (clear t)
unfolding create resolve cancel expire clear
operations-IsTable t id deadline timeout max now h =
    let less = length-delete id t.deadlines in
    let removed : IsTable (record t { deadlines = delete id t.deadlines }) = record {
      unique = IsUnique-delete id t.deadlines h.unique;
      few = omega (arith, h.few);
    } in
    (
      record { unique = tt; few = omega arith },
      add-IsTable t id deadline timeout now h,
      removed,
      removed,
      record {
        unique = IsUnique-live now t.deadlines h.unique;
        few = omega (arith, length-live now t.deadlines, h.few);
      },
      record { unique = tt; few = omega arith },
    )

-- How the deadlines change. `add` changes nothing if the request is pending or the table full;
-- else the request has its deadline then, and every other one is as before. `resolve` says whether the
-- request was pending, takes it out, and leaves every other one as it was.
pub deadline_for-operations :
    (t : RelayPendingRequestTable) (id other : Text) (deadline timeout : Option ℕ) (now : ℕ)
    → IsTable t
    → (((add t id deadline timeout now).0 ≡ t)
          × ((has t id ≡ true) ⊎ (t.max_pending ≤ length t.deadlines))
        ⊎ (has t id ≡ false)
          × (length t.deadlines < t.max_pending)
          × (deadline_for other (add t id deadline timeout now).0.deadlines ≡ (
              if text_eq id other
              then some (deadline_of deadline timeout now t.default_timeout_ms)
              else deadline_for other t.deadlines)))
      × ((resolve t id).1 ≡ has t id)
      × (deadline_for other (resolve t id).0.deadlines
          ≡ (if text_eq id other then none else deadline_for other t.deadlines))
unfolding resolve has add
deadline_for-operations t id other deadline timeout now h = (
  elim (Option-cases (deadline_for id t.deadlines)) [
    | inr (at, e) ↦ inl (rw (e, add) refl, inl (rw (e, has) refl))
    | inl e ↦ elim (Bool-cases (leb t.max_pending (length t.deadlines))) [
      | inl full ↦ inl (rw (e, add) (rw full refl), inr (leb→le _ _ full))
      | inr room ↦ inr (
        rw (e, has) refl,
        leb-false _ _ room,
        rw (e, add) (rw room (deadline_for-add other id _ t.deadlines e)),
      )
    ]
  ],
  refl,
  deadline_for-delete other id t.deadlines h.unique,
)
