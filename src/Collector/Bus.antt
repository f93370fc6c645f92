-- ===== src/Collector/Bus.antt =====
-- internal/collector/bus.go. A channel is its buffer size and the messages that wait in it; a
-- subscriber is known by a number, as a Go channel is by its identity.
use homelab_dashboard.Prelude.{
  ℕ, zero, suc, ◌+◌, ◌-◌, ◌≡◌, refl, sym, ◌∙◌, ap, take, Option, none, some, List, [], ◌∷◌, ◌++◌,
  length, ltb, ◌==◌, if◌then◌else◌, arith, Bool-cases, inl, inr,
}

pub record Channel (M : Type 0) : Type 0 where
  pub name : ℕ
  pub buffer : ℕ
  pub waiting : List M

-- The subscribers, and the number of the next channel.
pub record Bus (M : Type 0) : Type 0 where
  pub subs : List (Channel M)
  pub next : ℕ

unfoldable pub subscribe : {M : Type 0} → ℕ → Bus M → ℕ × Bus M
subscribe buffer b = (
  b.next,
  record {
    subs = record { name = b.next; buffer = buffer; waiting = [] } ∷ b.subs;
    next = b.next + 1;
  },
)

remove : {M : Type 0} → ℕ → List (Channel M) → List (Channel M)
remove n [] = []
remove n (c ∷ cs) = let rest = remove n cs in if c.name == n then rest else c ∷ rest

-- The function that Subscribe returns; a second call finds nothing to delete.
unfoldable pub cancel : {M : Type 0} → ℕ → Bus M → Bus M
unfolding remove
cancel n b = record b { subs = remove n b.subs }

-- A send that never waits: a full channel does not get the message.
unfoldable pub offer : {M : Type 0} → M → Channel M → Channel M
offer msg c =
    if ltb (length c.waiting) c.buffer then record c { waiting = c.waiting ++ msg ∷ [] } else c

offer_all : {M : Type 0} → M → List (Channel M) → List (Channel M)
offer_all msg [] = []
offer_all msg (c ∷ cs) = offer msg c ∷ offer_all msg cs

unfoldable pub publish : {M : Type 0} → M → Bus M → Bus M
unfolding offer_all
publish msg b = record b { subs = offer_all msg b.subs }

unfoldable pub subscribers : {M : Type 0} → Bus M → ℕ
subscribers b = length b.subs

-- The channel of a subscriber.
unfoldable pub channel : {M : Type 0} → ℕ → List (Channel M) → Option (Channel M)
channel n [] = none
channel n (c ∷ cs) = if c.name == n then some c else channel n cs

unfoldable pub publish_all : {M : Type 0} → List M → Bus M → Bus M
publish_all [] b = b
publish_all (msg ∷ msgs) b = publish_all msgs (publish msg b)

offer-name : {M : Type 0} (msg : M) (c : Channel M) → (offer msg c).name ≡ c.name
unfolding offer
offer-name msg c = ground arith

offer_in : {M : Type 0} → M → Option (Channel M) → Option (Channel M)
offer_in msg none = none
offer_in msg (some c) = some (offer msg c)

offer_all-channel :
    {M : Type 0} (msg : M) (n : ℕ) (cs : List (Channel M)) (c : Channel M)
    → channel n cs ≡ some c
    → channel n (offer_all msg cs) ≡ some (offer msg c)
unfolding offer_all channel offer_in offer
offer_all-channel msg n [] c h = absurd (ground arith)
offer_all-channel msg n (d ∷ cs) c h = elim (Bool-cases (d.name == n)) [
  | inl here ↦ rw (offer-name msg d, here) (ap (λ (o : Option _). offer_in msg o) (rw here at h))
  | inr away ↦ rw (offer-name msg d, away) (offer_all-channel msg n cs c (rw away at h))
]

append_nil : {M : Type 0} (xs : List M) → xs ++ [] ≡ xs
append_nil [] = refl
append_nil (x ∷ xs) = ap (λ ys. x ∷ ys) (append_nil xs)

append_assoc : {M : Type 0} (xs ys zs : List M) → (xs ++ ys) ++ zs ≡ xs ++ (ys ++ zs)
append_assoc [] ys zs = refl
append_assoc (x ∷ xs) ys zs = ap (λ l. x ∷ l) (append_assoc xs ys zs)

length-append_one : {M : Type 0} (xs : List M) (x : M) → length (xs ++ x ∷ []) ≡ length xs + 1
length-append_one [] x = omega arith
length-append_one (y ∷ xs) x = ground (arith, length-append_one xs x)

take_none : {M : Type 0} (n : ℕ) → Path (List M) (take n []) []
take_none zero = refl
take_none (suc n) = refl

take_zero : {M : Type 0} (n : ℕ) (xs : List M) → n ≡ 0 → take n xs ≡ []
take_zero zero xs h = refl
take_zero (suc n) xs h = absurd (omega arith)

take_suc :
    {M : Type 0} (n m : ℕ) (x : M) (xs : List M) → n ≡ m + 1 → take n (x ∷ xs) ≡ x ∷ take m xs
take_suc zero m x xs h = absurd (omega arith)
take_suc (suc n) m x xs h = ap (λ k. x ∷ take k xs) (omega arith)

-- The messages that wait after an offer.
after_offer : {M : Type 0} → ℕ → M → List M → List M
after_offer b msg w = if ltb (length w) b then w ++ msg ∷ [] else w

offer-waiting :
    {M : Type 0} (msg : M) (c : Channel M)
    → offer msg c ≡ record c { waiting = after_offer c.buffer msg c.waiting }
unfolding offer after_offer
offer-waiting msg c = elim (Bool-cases (ltb (length c.waiting) c.buffer)) [
  | inl room ↦ rw room refl
  | inr full ↦ rw full refl
]

after_offer-take :
    {M : Type 0} (b : ℕ) (msg : M) (w msgs : List M)
    → after_offer b msg w ++ take (b - length (after_offer b msg w)) msgs
      ≡ w ++ take (b - length w) (msg ∷ msgs)
unfolding after_offer
after_offer-take b msg w msgs = elim (Bool-cases (ltb (length w) b)) [
  | inl room ↦ rw room (
      append_assoc w (msg ∷ []) _
      ∙ ap (λ l. w ++ l)
          (sym (
            take_suc (b - length w) (b - length (w ++ msg ∷ [])) msg msgs
              (ground (arith, length-append_one w msg)))))
  | inr full ↦ rw full (
      ap (λ l. w ++ l)
        (take_zero (b - length w) msgs (ground arith)
          ∙ sym (take_zero (b - length w) (msg ∷ msgs) (ground arith))))
]

-- A subscriber that does not read gets the first messages that its buffer has room for, in order, and
-- loses the others; publishing goes on whatever the other subscribers do.
pub publish_all-channel :
    {M : Type 0} (msgs : List M) (b : Bus M) (n : ℕ) (c : Channel M)
    → channel n b.subs ≡ some c
    → channel n (publish_all msgs b).subs
      ≡ some (record c { waiting = c.waiting ++ take (c.buffer - length c.waiting) msgs })
unfolding publish_all publish
publish_all-channel [] b n c h =
    h
    ∙ ap (λ w. some (record c { waiting = w })) (sym (append_nil c.waiting))
    ∙ ap (λ w. some (record c { waiting = c.waiting ++ w }))
        (sym (take_none (c.buffer - length c.waiting)))
publish_all-channel (msg ∷ msgs) b n c h =
    publish_all-channel msgs (publish msg b) n
      (record c { waiting = after_offer c.buffer msg c.waiting })
      (offer_all-channel msg n b.subs c h ∙ ap some (offer-waiting msg c))
    ∙ ap (λ w. some (record c { waiting = w })) (after_offer-take c.buffer msg c.waiting msgs)
