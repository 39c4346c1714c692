-- ===== src/Publisher/Queue/Ends.antt =====
-- How the sends of a letter and the start of the loop end.
use friendlyrabbit.Base.{
  ◌≡◌, refl, ◌∙◌, Bool, true, false, [], ◌∷◌, ◌++◌, done, stuck, leb, length, if◌then◌else◌,
}
use friendlyrabbit.Env.{Env}
use friendlyrabbit.Payload.Packages.{Packages}
use friendlyrabbit.Message.Letter.{Letter}
use friendlyrabbit.Publisher.State.{Publisher}
use friendlyrabbit.Publisher.Queue.{letters_capacity, safe_send, start_auto_publishing}

module _ (e : Env) (k : Packages) where
  -- The two ends of a send.
  sent :
      (closed full : Bool) (s s' p : Publisher e k)
      → (if closed then done false s else if full then stuck else done true s') ≡ done true p
      → (closed ≡ false) × (p ≡ s')
  sent true full s s' p h = absurd cc
  sent false true s s' p h = absurd cc
  sent false false s s' p h = (refl, cc)

  not_sent :
      (closed full : Bool) (s s' p : Publisher e k)
      → (if closed then done false s else if full then stuck else done true s') ≡ done false p
      → (closed ≡ true) × (p ≡ s)
  not_sent true full s s' p h = (refl, cc)
  not_sent false true s s' p h = absurd cc
  not_sent false false s s' p h = absurd cc

  -- What QueueLetter has done when it returns.
  pub safe_send-true :
      (l : Letter k) (s p : Publisher e k)
      → safe_send e k l s ≡ done true p
      → (s.letters_closed ≡ false) × (p ≡ record s { letters = s.letters ++ (l ∷ []) })
  unfolding safe_send
  safe_send-true l s p h = sent s.letters_closed (leb letters_capacity (length s.letters)) s _ p h

  pub safe_send-false :
      (l : Letter k) (s p : Publisher e k)
      → safe_send e k l s ≡ done false p
      → (s.letters_closed ≡ true) × (p ≡ s)
  unfolding safe_send
  safe_send-false l s p h =
      not_sent s.letters_closed (leb letters_capacity (length s.letters)) s _ p h

  pub start_lem :
      (s p : Publisher e k)
      → start_auto_publishing e k s ≡ (true, p)
      → (s.auto_started ≡ false) × (p ≡ record s { auto_started = true })
  unfolding start_auto_publishing
  start_lem s p h = started s.auto_started h
    where
      started :
          (b : Bool)
          → ◌≡◌ {A = Bool × Publisher e k}
              (if b then (false, s) else (true, record s { auto_started = true }))
              (true, p)
          → (b ≡ false) × (p ≡ record s { auto_started = true })
      started true h = absurd cc
      started false h = (refl, cc)

  if_false : {A : Type 0} (b : Bool) (x y : A) → b ≡ false → (if b then x else y) ≡ y
  if_false true x y h = absurd cc
  if_false false x y h = refl

  pub start_off :
      (s : Publisher e k)
      → s.auto_started ≡ false
      → start_auto_publishing e k s ≡ (true, record s { auto_started = true })
  unfolding start_auto_publishing
  start_off s off = if_false s.auto_started _ _ off

  if_true : {A : Type 0} (b : Bool) (x y : A) → b ≡ true → (if b then x else y) ≡ x
  if_true true x y h = refl
  if_true false x y h = absurd cc

  pub safe_send_closed :
      (l : Letter k) (s : Publisher e k)
      → s.letters_closed ≡ true
      → safe_send e k l s ≡ done false s
  unfolding safe_send
  safe_send_closed l s is_shut = if_true s.letters_closed _ _ is_shut

  -- A letter is taken while the channel is open and has room.
  pub safe_send_open :
      (l : Letter k) (s : Publisher e k)
      → s.letters_closed ≡ false
      → leb letters_capacity (length s.letters) ≡ false
      → safe_send e k l s ≡ done true (record s { letters = s.letters ++ (l ∷ []) })
  unfolding safe_send
  safe_send_open l s is_open room =
      if_false s.letters_closed _ _ is_open
      ∙ if_false (leb letters_capacity (length s.letters)) _ _ room
