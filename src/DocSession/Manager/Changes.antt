-- ===== src/DocSession/Manager/Changes.antt =====
-- The steps of the running change keep the invariant.
use kb_1_daemon.Prelude.{
  ℕ, ◌≡◌, refl, sym, ap, ◌∙◌, ◌⊎◌, inl, inr, Bool, true, false, Bool-cases, List, [], ◌∷◌, Option,
  none, some, Text, text_eq, text_eq→eq, text_eq_self, any, if◌then◌else◌, arith, set_entry,
  delete_entry,
}
use kb_1_daemon.DocSession.Manager.{
  Manager, Mutation, stable_path, delete_session, delete_subtree, move_subtree, idle_close,
  move_session, close_all, Phase, operation_on_disk, session_deletes, session_closes, session_at,
  is_session_in_use, is_reserved_by, has_path_reservation, cancel_idle_close,
}
use kb_1_daemon.DocSession.Manager.Mutations.{
  end_mutation, awaits, delete_or_disk, delete_path, delete_next, begin_subtree, paths_below,
  close_unless, begin_mutation, close_ends, after_session_close, session_closed,
}
use kb_1_daemon.DocSession.Manager.Lookups.{
  Sessions, at, at-set, at-delete, at-Fewer, IsUnused, in_use-IsUnused,
}
use kb_1_daemon.DocSession.Manager.Invariant.{
  IsManager, IsOnePath, IsOnlyOf, IsAlone, IsPhase, IsFirst, IsTurn,
}
use kb_1_daemon.DocSession.Manager.Handlers.{IsQuiet, reservation_of}

-- Fewer sessions under the same next number.
pub quiet-IsOnePath : (m n : Manager) → IsQuiet m n → IsOnePath m → IsOnePath n
quiet-IsOnePath m n q i = record {
  numbered = λ p s e.
      let l = i.numbered p s (at-Fewer m.sessions n.sessions p s q.fewer e) in
      let x = q.next in omega arith;
  one_path = λ p r s d e.
      i.one_path p r s (at-Fewer m.sessions n.sessions p s q.fewer d)
        (at-Fewer m.sessions n.sessions r s q.fewer e);
}

-- A step to a phase that asks for nothing.
pub ended : (m : Manager) → IsOnePath m → IsManager (end_mutation m)
ended m i = record {
  sound = record { numbered = i.numbered; one_path = i.one_path };
  belongs = tt;
  running = tt;
}

pub awaits-IsManager :
    (m : Manager)
    → IsTurn operation_on_disk m.mutations
    → IsOnePath m
    → IsManager (awaits operation_on_disk m)
awaits-IsManager m h i = record {
  sound = record { numbered = i.numbered; one_path = i.one_path };
  belongs = h;
  running = tt;
}

only_of :
    (m : Manager) (p : Text) (o : Option ℕ) (f : Phase)
    → IsOnePath m
    → session_at p m ≡ o
    → IsOnlyOf p o (awaits f m)
only_of m p none f i e = tt
only_of m p (some s) f i e = record { only = λ q d. i.one_path q p s d e; old = i.numbered p s e }

pub delete_next-IsManager :
    (ps : List Text) (m : Manager) (folder : Text)
    → IsFirst (delete_subtree folder) m.mutations
    → IsOnePath m
    → IsManager (delete_next ps m)
delete_next-IsManager [] m folder h i = ended m i
delete_next-IsManager (p ∷ ps) m folder h i = record {
  sound = record { numbered = i.numbered; one_path = i.one_path };
  belongs = (folder, h);
  running = tt;
}

begin_subtree-IsManager :
    (ps : List Text) (m : Manager) (folder : Text)
    → IsFirst (delete_subtree folder) m.mutations
    → IsOnePath m
    → IsManager (begin_subtree m ps)
begin_subtree-IsManager [] m folder h i = awaits-IsManager m (delete_subtree folder, h, refl) i
begin_subtree-IsManager (p ∷ ps) m folder h i = delete_next-IsManager (p ∷ ps) m folder h i

begin_delete :
    (p : Text) (m : Manager) (o : Option ℕ)
    → has_path_reservation p m ≡ true
    → session_at p m ≡ o
    → IsFirst (delete_session p) m.mutations
    → IsOnePath m
    → IsManager (delete_or_disk p m o)
begin_delete p m none r e h i = awaits-IsManager m (delete_session p, h, refl) i
begin_delete p m (some s) r e h i = record {
  sound = record { numbered = i.numbered; one_path = i.one_path };
  belongs = h;
  running = (
    record { reserved = reservation_of m _ refl p r; holds = inl e },
    only_of m p (some s) (session_deletes p s) i e,
  );
}

pub chosen :
    (b : Bool) (m n : Manager)
    → ((b ≡ true) → IsManager m)
    → ((b ≡ false) → IsManager n)
    → IsManager (if b then m else n)
chosen true m n f g = f refl
chosen false m n f g = g refl

pub gone_at :
    (p q : Text) (s : ℕ) (l : Sessions)
    → at q (delete_entry text_eq p l) ≡ some s
    → (text_eq p q ≡ false) × (at q l ≡ some s)
gone_at p q s l e = elim (Bool-cases (text_eq p q)) [
  | inl b ↦
      let none_there : at q (delete_entry text_eq p l) ≡ none = at-delete q p l ∙ rw b refl in
      absurd (let no : none ≡ some s = sym none_there ∙ e in cc)
  | inr b ↦ (b, sym (at-delete q p l ∙ rw b refl) ∙ e)
]

-- The session that is about to close.
closing_alone :
    (p : Text) (s : ℕ) (m : Manager)
    → has_path_reservation p m ≡ true
    → session_at p m ≡ some s
    → IsUnused s m
    → IsFirst (idle_close p) m.mutations
    → IsOnePath m
    → IsManager (awaits (session_closes p s) (delete_path p m))
closing_alone p s m r e u h i =
    let gone : at p (delete_entry text_eq p m.sessions) ≡ none =
      at-delete p p m.sessions ∙ rw (text_eq_self p) refl in
    record {
      sound = record {
        numbered = λ q t d. i.numbered q t (gone_at p q t m.sessions d).1;
        one_path = λ q v t d f.
            i.one_path q v t (gone_at p q t m.sessions d).1 (gone_at p v t m.sessions f).1;
      };
      belongs = h;
      running = record {
        kept = record { reserved = reservation_of m _ refl p r; holds = inl gone };
        nowhere = λ q d.
            let (b, c) = gone_at p q s m.sessions d in
            let same : q ≡ p = i.one_path q p s c e in
            let here : text_eq p q ≡ true = rw same (text_eq_self p) in
            absurd (let no : true ≡ false = sym here ∙ b in cc);
        unused = u;
        old = i.numbered p s e;
      };
    }

module _ (sort : List Text → List Text) (has_failure : ℕ → Bool) where
  begin_close :
      (p : Text) (m : Manager) (o : Option ℕ)
      → has_path_reservation p m ≡ true
      → session_at p m ≡ o
      → IsFirst (idle_close p) m.mutations
      → IsOnePath m
      → IsManager (close_unless sort has_failure p m o)
  begin_close p m none r e h i = ended m i
  begin_close p m (some s) r e h i =
      chosen (is_session_in_use s m) _ _ (λ b. ended m i)
        (λ b.
          chosen (has_failure s) _ _ (λ c. ended m i)
            (λ c. closing_alone p s m r e (in_use-IsUnused s m b) h i))

  first_reserved :
      (p : Text) (t : Mutation) (rest : List Mutation) (m : Manager)
      → m.mutations ≡ t ∷ rest
      → is_reserved_by p t ≡ true
      → has_path_reservation p m ≡ true
  unfolding has_path_reservation
  first_reserved p t rest m e r = rw (e, r) refl

  first_of : (p : Text) (ps : List Text) → any (text_eq p) (p ∷ ps) ≡ true
  first_of p ps = rw (text_eq_self p) refl

  second_of : (p q : Text) → any (text_eq q) (p ∷ q ∷ []) ≡ true
  second_of p q = elim (Bool-cases (text_eq q p)) [
    | inl b ↦ rw b refl
    | inr b ↦ rw (b, text_eq_self q) refl
  ]

  pub begin_mutation-IsManager :
      (t : Mutation) (rest : List Mutation) (m : Manager)
      → m.mutations ≡ t ∷ rest
      → IsManager m
      → IsManager (begin_mutation sort has_failure t m)
  unfolding begin_mutation
  begin_mutation-IsManager (stable_path p) rest m e i =
      awaits-IsManager m (stable_path p, (rest, e), refl) i.sound
  begin_mutation-IsManager (move_session from to) rest m e i = record {
    sound = record { numbered = i.sound.numbered; one_path = i.sound.one_path };
    belongs = (rest, e);
    running = (
      record {
        reserved =
            reservation_of m _ refl from (first_reserved from _ rest m e (first_of from (to ∷ [])));
        holds = inl refl;
      },
      only_of m from (session_at from m) _ i.sound refl,
      reservation_of m _ refl to (first_reserved to _ rest m e (second_of from to)),
    );
  }
  begin_mutation-IsManager (delete_session p) rest m e i =
      begin_delete p m (session_at p m) (first_reserved p _ rest m e (first_of p [])) refl (rest, e)
        i.sound
  begin_mutation-IsManager (idle_close p) rest m e i =
      let n = cancel_idle_close p m in
      begin_close p n (session_at p n)
        (reservation_of m n refl p (first_reserved p _ rest m e (first_of p []))) refl (rest, e)
        (record { numbered = i.sound.numbered; one_path = i.sound.one_path })
  begin_mutation-IsManager (delete_subtree folder) rest m e i =
      begin_subtree-IsManager (sort (paths_below folder m.sessions)) m folder (rest, e) i.sound
  begin_mutation-IsManager (move_subtree from to) rest m e i = record {
    sound = record { numbered = i.sound.numbered; one_path = i.sound.one_path };
    belongs = (rest, e);
    running = tt;
  }
  begin_mutation-IsManager close_all rest m e i = record {
    sound = record { numbered = i.sound.numbered; one_path = i.sound.one_path };
    belongs = (rest, e);
    running = tt;
  }

  -- The session that did not close stands for its path again, and no other one stood for it.
  back-IsOnePath :
      (p : Text) (s : ℕ) (m : Manager)
      → IsAlone p s m
      → IsOnePath m
      → IsOnePath (record m { sessions = set_entry text_eq p s m.sessions })
  back-IsOnePath p s m a i =
      let back : (q : Text) (t : ℕ)
          → at q (set_entry text_eq p s m.sessions) ≡ some t
          → ((p ≡ q) × (s ≡ t)) ⊎ (at q m.sessions ≡ some t) =
        λ q t e. elim (Bool-cases (text_eq p q)) [
          | inl b ↦
              let two : some s ≡ some t = sym (at-set q p s m.sessions ∙ rw b refl) ∙ e in
              inl (text_eq→eq p q b, cc)
          | inr b ↦ inr (sym (at-set q p s m.sessions ∙ rw b refl) ∙ e)
        ] in
      record {
        numbered = λ q t e. elim (back q t e) [
          | inl (x, y) ↦ let l = a.old in omega arith
          | inr x ↦ i.numbered q t x
        ];
        one_path = λ q r t d e. elim (back q t d) [
          | inl (x, y) ↦ elim (back r t e) [
            | inl (z, w) ↦ sym x ∙ z
            | inr z ↦ absurd (a.nowhere r (z ∙ ap some (sym y)))
          ]
          | inr x ↦ elim (back r t e) [
            | inl (z, w) ↦ absurd (a.nowhere q (x ∙ ap some (sym w)))
            | inr z ↦ i.one_path q r t x z
          ]
        ];
      }

  closed-IsOnePath :
      (b : Bool) (p : Text) (s : ℕ) (m : Manager)
      → IsAlone p s m
      → IsOnePath m
      → IsOnePath (close_ends sort has_failure b p s m)
  closed-IsOnePath true p s m a i = i
  closed-IsOnePath false p s m a i = elim (Bool-cases (has_failure s)) [
    | inl b ↦ rw b (back-IsOnePath p s m a i)
    | inr b ↦ rw b i
  ]

  after_session_close-IsManager :
      (b : Bool) (m : Manager) (f : Phase)
      → IsPhase f m
      → IsManager m
      → IsManager (after_session_close sort has_failure b m f)
  after_session_close-IsManager b m (session_closes p s) a i =
      ended _ (closed-IsOnePath b p s m a i.sound)
  after_session_close-IsManager b m _ a i = i

  pub session_closed-IsManager :
      (b : Bool) (m : Manager) → IsManager m → IsManager (session_closed sort has_failure b m)
  unfolding session_closed
  session_closed-IsManager b m i = after_session_close-IsManager b m m.phase i.running i
