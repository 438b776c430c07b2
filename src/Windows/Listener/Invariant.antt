-- ===== src/Windows/Listener/Invariant.antt =====
-- What holds of the ring, the senders and the listener between any two statements.
use mathlib.Core.Path.{subst}
use osdev_graphical.Base.{
  ℕ, ◌+◌, ◌%◌, ◌≤◌, ◌<◌, ◌≡◌, ◌≢◌, refl, arith, ◌∙◌, sym, ap, Bool-cases, ==_iff, inl, inr, true,
  false, ◌++◌, ◌==◌,
}
use osdev_graphical.Windows.Listener.{
  Ring, Sender, idle, holding, stored, advanced, counted, leaving, Phase, waiting, awake, to_lock,
  inside, taken, moved, lowered, System, stands,
}
use osdev_graphical.Windows.Listener.Contents.{contents}

-- The slot of the oldest request that is counted: the listener moves the start before the count.
abbrev pub oldest : Phase → Ring → ℕ
oldest (moved operation) r = (r.start + 19) % 20
oldest waiting r = r.start
oldest awake r = r.start
oldest to_lock r = r.start
oldest inside r = r.start
oldest (taken operation) r = r.start
oldest lowered r = r.start

-- Outside its statements under the lock the listener has seen a request, or waits for one.
abbrev pub IsOutside : Phase → ℕ → Type 0
IsOutside waiting n = 0 ≤ n
IsOutside awake n = 1 ≤ n
IsOutside to_lock n = 1 ≤ n
IsOutside inside n = n < 0
IsOutside (taken operation) n = n < 0
IsOutside (moved operation) n = n < 0
IsOutside lowered n = n < 0

-- What a sender has done to the ring.
abbrev pub SenderFits : Sender → Ring → Type 0
SenderFits idle r = r.index < 0
SenderFits (holding v) r = (r.index < 20) × (r.end ≡ (r.start + r.index) % 20)
SenderFits (stored v) r = (r.index < 20) × (r.end ≡ (r.start + r.index) % 20) × (r.ops r.end ≡ v)
SenderFits (advanced v) r =
    (r.index < 20) × (r.end ≡ (r.start + r.index + 1) % 20) × (r.ops ((r.start + r.index) % 20) ≡ v)
SenderFits counted r = (1 ≤ r.index) × (r.end ≡ (r.start + r.index) % 20)
SenderFits leaving r = (r.index < 20) × (r.end ≡ (r.start + r.index) % 20)

-- What the listener has done to the ring.
abbrev pub ListenerFits : Phase → Ring → Type 0
ListenerFits waiting r = r.index < 0
ListenerFits awake r = r.index < 0
ListenerFits to_lock r = r.index < 0
ListenerFits inside r = (1 ≤ r.index) × (r.end ≡ (r.start + r.index) % 20)
ListenerFits (taken v) r = (1 ≤ r.index) × (r.end ≡ (r.start + r.index) % 20) × (v ≡ r.ops r.start)
ListenerFits (moved v) r =
    (1 ≤ r.index) × (r.end ≡ (r.start + 19 + r.index) % 20) × (v ≡ r.ops ((r.start + 19) % 20))
ListenerFits lowered r = (r.index < 20) × (r.end ≡ (r.start + r.index) % 20)

-- Who holds the lock: nobody; nobody, with the ring full and locked; one sender; or the listener. All
-- others are outside.
pub data Owner (s : System) : Type 0 where
  nobody :
      s.ring.locked ≡ (s.ring.index == 20)
      → ((i : ℕ) → s.senders i ≡ idle)
      → IsOutside s.phase s.ring.index
      → s.ring.end ≡ (s.ring.start + s.ring.index) % 20
      → Owner s
  sender :
      (i : ℕ)
      → s.ring.locked ≡ true
      → ((j : ℕ) → j ≢ i → s.senders j ≡ idle)
      → IsOutside s.phase s.ring.index
      → SenderFits (s.senders i) s.ring
      → Owner s
  listener :
      s.ring.locked ≡ true → ((i : ℕ) → s.senders i ≡ idle) → ListenerFits s.phase s.ring → Owner s

-- The ring is a queue of at most twenty requests: those that were counted are those that the listener
-- took off followed by those that lie in the ring from the oldest slot on.
pub record IsOrdered (s : System) : Type 0 where
  pub start : s.ring.start < 20
  pub bounded : s.ring.index ≤ 20
  pub fifo : s.sent ≡ s.received ++ contents s.ring.ops (oldest s.phase s.ring) s.ring.index
  pub owner : Owner s

-- A sender that is not idle is the owner.
pub record Owns (s : System) (i : ℕ) (x : Sender) : Type 0 where
  pub held : s.ring.locked ≡ true
  pub others : (j : ℕ) → j ≢ i → s.senders j ≡ idle
  pub outside : IsOutside s.phase s.ring.index
  pub fits : SenderFits x s.ring

pub owns : (s : System) (i : ℕ) (x : Sender) → Owner s → s.senders i ≡ x → x ≢ idle → Owns s i x
owns s i x (nobody l all o e) h ne = absurd (ne (sym h ∙ all i))
owns s i x (listener l all f) h ne = absurd (ne (sym h ∙ all i))
owns s i x (sender k l others o f) h ne = elim (Bool-cases (i == k)) [
  | inl q ↦
      let same : i ≡ k = (==_iff i k).0 q in
      record {
        held = l;
        others = λ j n. others j (λ e. n (e ∙ sym same));
        outside = o;
        fits = subst (λ y. SenderFits y s.ring) (sym (ap s.senders same) ∙ h) f;
      }
  | inr q ↦ absurd (ne (sym h ∙ others i (λ e. false_true (sym q ∙ (==_iff i k).1 e))))
]
  where
    false_true : false ≢ true
    false_true e = cc

-- The listener is the owner when it is not outside.
pub listens :
    (s : System) (p : Phase)
    → Owner s
    → s.phase ≡ p
    → ((n : ℕ) → ¬ IsOutside p n)
    → (s.ring.locked ≡ true) × ((i : ℕ) → s.senders i ≡ idle) × ListenerFits p s.ring
listens s p (nobody l all o e) h out =
    absurd (out s.ring.index (subst (λ q. IsOutside q s.ring.index) h o))
listens s p (sender k l others o f) h out =
    absurd (out s.ring.index (subst (λ q. IsOutside q s.ring.index) h o))
listens s p (listener l all f) h out = (l, all, subst (λ q. ListenerFits q s.ring) h f)

-- While it is outside, the oldest request is at the start.
pub oldest-start : (p : Phase) (n : ℕ) (r : Ring) → IsOutside p n → oldest p r ≡ r.start
oldest-start waiting n r h = refl
oldest-start awake n r h = refl
oldest-start to_lock n r h = refl
oldest-start inside n r h = refl
oldest-start (taken v) n r h = refl
oldest-start (moved v) n r h = absurd (omega arith)
oldest-start lowered n r h = refl

pub stands_self : (senders : ℕ → Sender) (i : ℕ) (x : Sender) → stands senders i x i ≡ x
stands_self senders i x = let e : (i == i) ≡ true = ground arith in rw e refl

pub stands-idle :
    (senders : ℕ → Sender) (i : ℕ)
    → ((j : ℕ) → j ≢ i → senders j ≡ idle)
    → (j : ℕ) → stands senders i idle j ≡ idle
stands-idle senders i h j = elim (Bool-cases (j == i)) [
  | inl e ↦ rw e refl
  | inr e ↦ rw e (h j (ground arith))
]
