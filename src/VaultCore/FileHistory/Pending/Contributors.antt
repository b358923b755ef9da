-- ===== src/VaultCore/FileHistory/Pending/Contributors.antt =====
-- Who contributed to a pending version: `addContributor`, call by call, against the first change of each.
use kb_1_daemon.Prelude.{
  ◌≡◌, refl, sym, ap, ◌∙◌, inl, inr, Bool, true, ◌||◌, Bool-cases, List, [], ◌∷◌, ◌++◌, append-nil,
  append_assoc, Text, text_eq, text_eq→eq, any, arith, if◌then◌else◌,
}
use kb_1_daemon.VaultCore.FileHistory.{VaultActor, Host}
use kb_1_daemon.VaultCore.FileHistory.Pending.{
  RecordFileHistoryInput, or_unknown, actor_key, add_contributor,
}

module _ (h : Host) where
  abbrev pub contributors_of : List VaultActor → List RecordFileHistoryInput → List VaultActor
  contributors_of actors [] = actors
  contributors_of actors (input ∷ inputs) =
      contributors_of (add_contributor h actors (or_unknown input.actor)) inputs

  -- The actors of the changes whose keys are not among the earlier ones, in order.
  abbrev pub first_of_each : List Text → List RecordFileHistoryInput → List VaultActor
  first_of_each earlier [] = []
  first_of_each earlier (input ∷ inputs) =
      let key = actor_key h (or_unknown input.actor) in
      let later = first_of_each (key ∷ earlier) inputs in
      if any (λ k. text_eq k key) earlier then later else or_unknown input.actor ∷ later

  is_among : List VaultActor → Text → Bool
  is_among actors key = any (λ candidate. text_eq (actor_key h candidate) key) actors

  is_among-append :
      (actors : List VaultActor) (actor : VaultActor) (key : Text)
      → is_among (actors ++ actor ∷ []) key
        ≡ (text_eq (actor_key h actor) key || is_among actors key)
  unfolding is_among
  is_among-append [] actor key = refl
  is_among-append (a ∷ actors) actor key = ground (arith, is_among-append actors actor key)

  is_among_again :
      (actors : List VaultActor) (mine key : Text)
      → is_among actors mine ≡ true
      → is_among actors key ≡ (text_eq mine key || is_among actors key)
  is_among_again actors mine key e = elim (Bool-cases (text_eq mine key)) [
    | inr f ↦ rw f refl
    | inl f ↦ let same : mine ≡ key = text_eq→eq mine key f in rw f (rw (sym same, e) refl)
  ]

  abbrev SameKeys : List Text → List VaultActor → Type 0
  SameKeys earlier actors = (key : Text) → any (λ k. text_eq k key) earlier ≡ is_among actors key

  contributors_of-first_of_each :
      (earlier : List Text) (actors : List VaultActor) (inputs : List RecordFileHistoryInput)
      → SameKeys earlier actors
      → contributors_of actors inputs ≡ actors ++ first_of_each earlier inputs
  unfolding add_contributor is_among
  contributors_of-first_of_each earlier actors [] s = sym (append-nil actors)
  contributors_of-first_of_each earlier actors (input ∷ inputs) s =
      let actor = or_unknown input.actor in
      let mine = actor_key h actor in
      elim (Bool-cases (is_among actors mine)) [
        | inl e ↦
            rw (s mine, e)
              (contributors_of-first_of_each (mine ∷ earlier) actors inputs (λ key.
                ap (λ b. text_eq mine key || b) (s key) ∙ sym (is_among_again actors mine key e)))
        | inr e ↦
            rw (s mine, e)
              (contributors_of-first_of_each (mine ∷ earlier) (actors ++ actor ∷ []) inputs (λ key.
                  ap (λ b. text_eq mine key || b) (s key) ∙ sym (is_among-append actors actor key))
                ∙ append_assoc actors (actor ∷ []) (first_of_each (mine ∷ earlier) inputs))
      ]

  pub contributors_of_lem :
      (first : RecordFileHistoryInput) (inputs : List RecordFileHistoryInput)
      → contributors_of (or_unknown first.actor ∷ []) inputs ≡ first_of_each [] (first ∷ inputs)
  unfolding is_among
  contributors_of_lem first inputs =
      contributors_of-first_of_each (actor_key h (or_unknown first.actor) ∷ [])
        (or_unknown first.actor ∷ []) inputs (λ key. refl)
