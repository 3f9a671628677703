-- ===== src/Outbox/Survival.antt =====
-- Records that may stand for a real order survive every operation that takes records out.
use binance.Base.{
  ℕ, ◌≡◌, refl, ap, subst, inl, inr, Bool-cases, any, Option, none, some, Bool, true, false, not,
  ◌||◌, List, [], ◌∷◌, arith, keep_if, Has, Has-keep_if,
}
use binance.Outbox.Types.{Side, Rec, Config, is_accepted, is_awaiting, is_pending}
use binance.Outbox.Guards.{is_possibly_submitted, valid_record}
use binance.Outbox.Due.{is_expired}
use binance.Outbox.File.{Change, after}
use binance.Outbox.Cleanup.{
  discard_expired, drop_expired, names_record, discardable, resolve, resolves, write_unless,
  write_if_removed,
}

keep_if-nothing :
    (p : Rec → Bool) (rs : List Rec) → keep_if p rs ≡ [] → keep_if (λ r. not (p r)) rs ≡ rs
keep_if-nothing p [] h = refl
keep_if-nothing p (r ∷ rs) h = ground (arith, keep_if-nothing p rs)

-- A record that has reached a venue, or may have.
abbrev pub IsVenueTruth : Rec → Type 0
IsVenueTruth r =
    (is_accepted r.lifecycle || is_awaiting r.lifecycle || is_possibly_submitted r) ≡ true

is_expired-IsVenueTruth :
    (c : Config) (now : ℕ) (r : Rec) → IsVenueTruth r → is_expired c now r ≡ false
unfolding is_expired
is_expired-IsVenueTruth c now r h = rw h

after-write_unless :
    (p : Rec → Bool) (rs : List Rec)
    → after rs (write_unless (keep_if p rs) (keep_if (λ r. not (p r)) rs)).0
      ≡ keep_if (λ r. not (p r)) rs
after-write_unless p rs = ground (arith, keep_if-nothing p rs)

after-write_if_removed :
    (p : Rec → Bool) (rs : List Rec)
    → after rs (write_if_removed (keep_if p rs) (keep_if (λ r. not (p r)) rs)).0
      ≡ keep_if (λ r. not (p r)) rs
after-write_if_removed p rs = ground (arith, keep_if-nothing p rs)

discardable-IsVenueTruth :
    (c : Config) (now : ℕ) (snapshots : List Rec) (r : Rec)
    → IsVenueTruth r
    → discardable c now snapshots r ≡ false
unfolding discardable
discardable-IsVenueTruth c now snapshots r h = ground (arith, is_expired-IsVenueTruth c now r h)

-- A record that is accepted, awaits a cancellation, or may have been submitted stays in the queue when
-- expired records are discarded, at any time and for any snapshots.
pub discard_expired-IsVenueTruth :
    (c : Config) (snapshots : List Rec) (now : ℕ) (rs : List Rec) (r : Rec) {w : Option (List Rec)}
    {removed : List Rec}
    → discard_expired c snapshots now rs ≡ some (w, removed)
    → IsVenueTruth r
    → Has r rs
    → Has r (after rs w)
unfolding discard_expired
discard_expired-IsVenueTruth c snapshots now rs r {w} {removed} e truth h =
    elim (Bool-cases (any names_record snapshots)) [
      | inr nameless ↦
          let same : ◌≡◌ {A = Change (List Rec)} (none, []) (w, removed) = ground arith in
          subst (λ x. Has r (after rs x)) (ap (λ x. x.0) same) h
      | inl named ↦ elim (Bool-cases (any (λ x. not (valid_record x)) rs)) [
        | inl broken ↦ absurd (ground arith)
        | inr valid ↦
            let same : drop_expired c snapshots now rs ≡ (w, removed) = ground arith in
            subst (λ x. Has r (after rs x)) (ap (λ x. x.0) same)
              (rw (after-write_unless (discardable c now snapshots) rs) (
                Has-keep_if (λ x. not (discardable c now snapshots x)) r rs
                  (ap not (discardable-IsVenueTruth c now snapshots r truth)) h))
      ]
    ]

-- `resolve` leaves every record that is not pending where it was.
pub resolve-not_pending :
    (symbol : ℕ) (side : Side) (rs : List Rec) (r : Rec)
    → is_pending r.lifecycle ≡ false
    → Has r rs
    → Has r (after rs (resolve symbol side rs).0)
unfolding resolve resolves
resolve-not_pending symbol side rs r pending h =
    rw (after-write_if_removed (resolves symbol side) rs)
      (Has-keep_if (λ x. not (resolves symbol side x)) r rs (ground arith) h)
