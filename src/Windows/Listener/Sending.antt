-- ===== src/Windows/Listener/Sending.antt =====
-- The statements of a sender keep the invariant.
use mathlib.Core.Path.{subst}
use mathlib.Core.List.{append_assoc}
use osdev_graphical.Base.{
  ℕ, suc, ◌+◌, ◌%◌, ◌≡◌, ◌≢◌, refl, arith, ◌∙◌, sym, ap, Bool-cases, inl, inr, true, false, List,
  [], ◌∷◌, ◌++◌, if◌then◌else◌, ◌==◌, ltb,
}
use osdev_graphical.Windows.Listener.{
  WinsysOp, Ring, set_lock, store, advance_end, count, Sender, idle, holding, stored, advanced,
  counted, leaving, Phase, waiting, awake, to_lock, inside, taken, moved, lowered, System, stands,
}
use osdev_graphical.Windows.Listener.Contents.{contents, contents-store}
use osdev_graphical.Windows.Listener.Invariant.{
  stands_self, stands-idle, IsOutside, SenderFits, Owner, nobody, sender, IsOrdered, owns,
}
use osdev_graphical.Windows.Listener.Outside.{to_start, from_start, free}

stands-others :
    (senders : ℕ → Sender) (i : ℕ) (x : Sender)
    → ((j : ℕ) → j ≢ i → senders j ≡ idle)
    → (j : ℕ) → j ≢ i
    → stands senders i x j ≡ idle
stands-others senders i x h j n = let e : (j == i) ≡ false = ground arith in rw e (h j n)

-- A sender that stays under the lock goes on to `x`.
goes_on :
    (s : System) (r : Ring) (sent : List WinsysOp) (i : ℕ) (x : Sender)
    → r.locked ≡ true
    → ((j : ℕ) → j ≢ i → s.senders j ≡ idle)
    → IsOutside s.phase r.index
    → SenderFits x r
    → Owner (record s { ring = r; sent = sent; senders = stands s.senders i x })
goes_on s r sent i x l others o f =
    sender i l (stands-others s.senders i x others) o
      (subst (λ y. SenderFits y r) (sym (stands_self s.senders i x)) f)

pub enter-IsOrdered :
    (s : System) (i : ℕ) (v : WinsysOp)
    → s.ring.locked ≡ false
    → IsOrdered s
    → IsOrdered (record s { ring = set_lock true s.ring; senders = stands s.senders i (holding v) })
unfolding set_lock
enter-IsOrdered s i v h w =
    let f = free s w h in
    let s' : System = record s {
      ring = record (s.ring) { locked = true };
      senders = stands s.senders i (holding v);
    } in
    record {
      start = w.start;
      bounded = w.bounded;
      fifo = from_start s' f.outside (to_start s w f.outside);
      owner =
          goes_on s (record (s.ring) { locked = true }) s.sent i (holding v) refl (λ j n. f.all j)
            f.outside (f.room, f.end);
    }

holding-idle : (v : WinsysOp) → holding v ≢ idle
holding-idle v e = cc

stored-idle : (v : WinsysOp) → stored v ≢ idle
stored-idle v e = cc

advanced-idle : (v : WinsysOp) → advanced v ≢ idle
advanced-idle v e = cc

counted-idle : counted ≢ idle
counted-idle e = cc

leaving-idle : leaving ≢ idle
leaving-idle e = cc

pub store-IsOrdered :
    (s : System) (i : ℕ) (v : WinsysOp)
    → s.senders i ≡ holding v
    → IsOrdered s
    → IsOrdered (record s { ring = store v s.ring; senders = stands s.senders i (stored v) })
unfolding store
store-IsOrdered s i v h w =
    let m = owns s i (holding v) w.owner h (holding-idle v) in
    let r' : Ring = record (s.ring) { ops = λ j. if j == s.ring.end then v else s.ring.ops j } in
    let s' : System = record s { ring = r'; senders = stands s.senders i (stored v) } in
    let self : (s.ring.end == s.ring.end) ≡ true = ground arith in
    record {
      start = w.start;
      bounded = w.bounded;
      fifo = from_start s' m.outside (
          to_start s w m.outside
          ∙ ap (λ (q : List WinsysOp). s.received ++ q)
              (sym (
                contents-store s.ring.ops s.ring.start s.ring.index s.ring.end v m.fits.1
                  m.fits.0)));
      owner =
          goes_on s r' s.sent i (stored v) m.held m.others m.outside
            (m.fits.0, m.fits.1, rw self refl);
    }

pub advance_end-IsOrdered :
    (s : System) (i : ℕ) (v : WinsysOp)
    → s.senders i ≡ stored v
    → IsOrdered s
    → IsOrdered (record s { ring = advance_end s.ring; senders = stands s.senders i (advanced v) })
unfolding advance_end
advance_end-IsOrdered s i v h w =
    let m = owns s i (stored v) w.owner h (stored-idle v) in
    let r' : Ring = record (s.ring) { end = (s.ring.end + 1) % 20 } in
    let s' : System = record s { ring = r'; senders = stands s.senders i (advanced v) } in
    record {
      start = w.start;
      bounded = w.bounded;
      fifo = from_start s' m.outside (to_start s w m.outside);
      owner =
          goes_on s r' s.sent i (advanced v) m.held m.others m.outside
            (m.fits.0, omega (arith, m.fits.1), ap s.ring.ops (sym m.fits.1) ∙ m.fits.2);
    }

IsOutside-count : (p : Phase) (n : ℕ) → IsOutside p n → IsOutside p (n + 1)
IsOutside-count waiting n h = omega arith
IsOutside-count awake n h = omega arith
IsOutside-count to_lock n h = omega arith
IsOutside-count inside n h = absurd (omega arith)
IsOutside-count (taken v) n h = absurd (omega arith)
IsOutside-count (moved v) n h = absurd (omega arith)
IsOutside-count lowered n h = absurd (omega arith)

pub count-IsOrdered :
    (s : System) (i : ℕ) (v : WinsysOp)
    → s.senders i ≡ advanced v
    → IsOrdered s
    → IsOrdered (record s {
      ring = count s.ring;
      senders = stands s.senders i counted;
      sent = s.sent ++ (v ∷ []);
    })
unfolding count
count-IsOrdered s i v h w =
    let m = owns s i (advanced v) w.owner h (advanced-idle v) in
    let r = s.ring in
    let r' : Ring = record r { index = r.index + 1 } in
    let o = IsOutside-count s.phase r.index m.outside in
    let s' : System = record s {
      ring = r';
      senders = stands s.senders i counted;
      sent = s.sent ++ (v ∷ []);
    } in
    let one : suc r.index ≡ r.index + 1 = omega arith in
    record {
      start = w.start;
      bounded = omega (arith, m.fits.0);
      fifo = from_start s' o (
          ap (λ (q : List WinsysOp). q ++ (v ∷ [])) (to_start s w m.outside)
          ∙ append_assoc s.received (contents r.ops r.start r.index) (v ∷ [])
          ∙ ap (λ (x : WinsysOp). s.received ++ (contents r.ops r.start r.index ++ (x ∷ [])))
              (sym m.fits.2)
          ∙ ap (λ (n : ℕ). s.received ++ contents r.ops r.start n) one);
      owner =
          goes_on s r' (s.sent ++ (v ∷ [])) i counted m.held m.others o
            (omega arith, omega (arith, m.fits.1));
    }

pub check-IsOrdered :
    (s : System) (i : ℕ)
    → s.senders i ≡ counted
    → IsOrdered s
    → IsOrdered
        (record s { senders = stands s.senders i (if ltb s.ring.index 20 then leaving else idle) })
check-IsOrdered s i h w =
    let m = owns s i counted w.owner h counted-idle in
    record {
      start = w.start;
      bounded = w.bounded;
      fifo = w.fifo;
      owner = elim (Bool-cases (ltb s.ring.index 20)) [
        | inl t ↦ rw t (
            goes_on s s.ring s.sent i leaving m.held m.others m.outside
              (ground (arith, t), m.fits.1))
        | inr f ↦
            let full : (s.ring.index == 20) ≡ true = ground (arith, f, w.bounded) in
            rw f (nobody (m.held ∙ sym full) (stands-idle s.senders i m.others) m.outside m.fits.1)
      ];
    }

pub leave-IsOrdered :
    (s : System) (i : ℕ)
    → s.senders i ≡ leaving
    → IsOrdered s
    → IsOrdered (record s { ring = set_lock false s.ring; senders = stands s.senders i idle })
unfolding set_lock
leave-IsOrdered s i h w =
    let m = owns s i leaving w.owner h leaving-idle in
    let s' : System = record s {
      ring = record (s.ring) { locked = false };
      senders = stands s.senders i idle;
    } in
    let room : (s.ring.index == 20) ≡ false = ground (arith, m.fits.0) in
    record {
      start = w.start;
      bounded = w.bounded;
      fifo = from_start s' m.outside (to_start s w m.outside);
      owner = nobody (sym room) (stands-idle s.senders i m.others) m.outside m.fits.1;
    }
