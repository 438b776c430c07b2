-- ===== src/Scheduler/Behind.antt =====
-- What the prioritised insertion puts behind an entry: right behind it, or behind the next that counts.
use osdev_graphical.Base.{
  ℕ, ◌+◌, ◌≤◌, max, ◌≡◌, refl, arith, ◌∙◌, sym, Bool-cases, List, [], ◌∷◌, ◌++◌, length, leb, inl,
  inr, ap, true, false,
}
use osdev_graphical.Scheduler.{QueueEntry, insert_entry}

-- The greatest priority number of a list.
abbrev pub ceiling : List QueueEntry → ℕ
ceiling [] = 0
ceiling (c ∷ cs) = max c.thread.priority (ceiling cs)

abbrev pub inserts : List QueueEntry → List QueueEntry → List QueueEntry
inserts [] q = q
inserts (e ∷ es) q = inserts es (insert_entry q e)

-- `rs` in reverse, then `q`.
abbrev pub revapp : List QueueEntry → List QueueEntry → List QueueEntry
revapp [] q = q
revapp (x ∷ rs) q = revapp rs (x ∷ q)

pub revapp-length : (rs q : List QueueEntry) → length (revapp rs q) ≡ length rs + length q
revapp-length [] q = omega arith
revapp-length (x ∷ rs) q = omega (arith, revapp-length rs (x ∷ q))

pub revapp_twice : (cs acc q : List QueueEntry) → revapp (revapp cs acc) q ≡ revapp acc (cs ++ q)
revapp_twice [] acc q = refl
revapp_twice (c ∷ cs) acc q = revapp_twice cs (c ∷ acc) q

pass :
    (x e z : QueueEntry) (cs t : List QueueEntry)
    → leb x.thread.priority e.thread.priority ≡ true
    → insert_entry (x ∷ (cs ++ (z ∷ t))) e ≡ x ∷ insert_entry (cs ++ (z ∷ t)) e
unfolding insert_entry
pass x e z [] t h = rw h refl
pass x e z (c ∷ cs) t h = rw h refl

stop :
    (x e z : QueueEntry) (cs t : List QueueEntry)
    → leb x.thread.priority e.thread.priority ≡ false
    → insert_entry (x ∷ (cs ++ (z ∷ t))) e ≡ x ∷ e ∷ (cs ++ (z ∷ t))
unfolding insert_entry
stop x e z [] t h = rw h refl
stop x e z (c ∷ cs) t h = rw h refl

pub pass_all :
    (e z : QueueEntry) (cs t : List QueueEntry)
    → ceiling cs ≤ e.thread.priority
    → insert_entry (cs ++ (z ∷ t)) e ≡ cs ++ insert_entry (z ∷ t) e
pass_all e z [] t h = refl
pass_all e z (c ∷ cs) t h =
    let low : leb c.thread.priority e.thread.priority ≡ true = ground arith in
    pass c e z cs t low ∙ ap (λ (q : List QueueEntry). c ∷ q) (pass_all e z cs t (omega arith))

pub head_stays :
    (z e : QueueEntry) (t : List QueueEntry)
    → (q : List QueueEntry) × (insert_entry (z ∷ t) e ≡ z ∷ q)
unfolding insert_entry
head_stays z e [] = (e ∷ [], refl)
head_stays z e (y ∷ t) = elim (Bool-cases (leb z.thread.priority e.thread.priority)) [
  | inl h ↦ (insert_entry (y ∷ t) e, rw h refl)
  | inr h ↦ (e ∷ y ∷ t, rw h refl)
]

pub heads_stay :
    (z : QueueEntry) (es t : List QueueEntry) → (q : List QueueEntry) × (inserts es (z ∷ t) ≡ z ∷ q)
heads_stay z [] t = (t, refl)
heads_stay z (e ∷ es) t =
    let (q, h) = head_stays z e t in
    let (q', h') = heads_stay z es q in (q', ap (inserts es) h ∙ h')

-- What is inserted behind `x` stands right behind it if of a smaller number, or goes behind `z`.
pub record IsSplit (es : List QueueEntry) (x z : QueueEntry) (cs t : List QueueEntry) : Type 0 where
  pub between : List QueueEntry
  pub behind : List QueueEntry
  pub size : length between + length behind ≤ length es + length cs
  pub low : ceiling between ≤ x.thread.priority
  pub split : inserts es (x ∷ (cs ++ (z ∷ t))) ≡ x ∷ (between ++ inserts behind (z ∷ t))

pub split_lem :
    (es : List QueueEntry) (x z : QueueEntry) (cs t : List QueueEntry)
    → ceiling cs ≤ x.thread.priority
    → IsSplit es x z cs t
split_lem [] x z cs t h = record {
  between = cs;
  behind = [];
  size = omega arith;
  low = h;
  split = refl;
}
split_lem (e ∷ es) x z cs t h = elim (Bool-cases (leb x.thread.priority e.thread.priority)) [
  | inl p ↦
      let (q, hq) = head_stays z e t in
      let r = split_lem es x z cs q h in
      let small : ceiling cs ≤ e.thread.priority = ground arith in
      record {
        between = r.between;
        behind = e ∷ r.behind;
        size = omega (arith, r.size);
        low = r.low;
        split =
            ap (inserts es) (
              pass x e z cs t p
              ∙ ap (λ (w : List QueueEntry). x ∷ w) (pass_all e z cs t small)
              ∙ ap (λ (w : List QueueEntry). x ∷ (cs ++ w)) hq)
            ∙ r.split
            ∙ ap (λ (w : List QueueEntry). x ∷ (r.between ++ inserts r.behind w)) (sym hq);
      }
  | inr p ↦
      let r = split_lem es x z (e ∷ cs) t (ground arith) in
      record {
        between = r.between;
        behind = r.behind;
        size = omega (arith, r.size);
        low = r.low;
        split = ap (inserts es) (stop x e z cs t p) ∙ r.split;
      }
]

pub inserts_append : (ds bs q : List QueueEntry) → inserts (ds ++ bs) q ≡ inserts bs (inserts ds q)
inserts_append [] bs q = refl
inserts_append (a ∷ ds) bs q = inserts_append ds bs (insert_entry q a)
