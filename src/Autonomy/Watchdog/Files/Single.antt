-- ===== src/Autonomy/Watchdog/Files/Single.antt =====
-- The gap issues of src/autonomy/missed-slot-watchdog.ts: that one of them is open at most, and what
-- the adapter does to them.
use ycm_harness.Common.{
  differ, ◌≡◌, refl, sym, ◌∙◌, subst, inl, inr, String, true, false, Option, none, some, List,
  arith, all, find, find-some, find-none, length, leb, Dict, lookup, assign, lookup-assign_self, In,
  Bool-cases, Option-cases, returns, ◌>>=◌, ◌>>◌, require,
}
use ycm_harness.Autonomy.Watchdog.{GapIssue, MissedSlot, Platform}
use ycm_harness.Autonomy.Watchdog.Files.{
  is_gap_issue, is_open, list_gaps, find_live, open_gap, update_gap, create_gap, resolve_gap,
  with_missed, new_gap, as_resolved,
}
use ycm_harness.Autonomy.Watchdog.Files.Loaded.{assigned, AllValid, parsed-some, load_all-Loaded}

-- No issue is open.
abbrev pub NoneOpen : Dict GapIssue → Type 0
NoneOpen d = (k : String) (g : GapIssue) → lookup k d ≡ some g → is_open g ≡ false

-- Only that file may be an open issue.
abbrev pub OpenOnlyAt : String → Dict GapIssue → Type 0
OpenOnlyAt k d = (j : String) (h : GapIssue) → lookup j d ≡ some h → is_open h ≡ true → j ≡ k

-- A directory of gap issues as the watchdog keeps it: the schema takes each file, a file is named
-- by its issue, and one issue is open at most.
pub record GoodGaps (z : Platform) (d : Dict GapIssue) : Type 0 where
  pub valid : AllValid (is_gap_issue z) d
  pub named : (k : String) (g : GapIssue) → lookup k d ≡ some g → g.issue_id ≡ k
  pub single : (k : String) (g : GapIssue) → lookup k d ≡ some g → is_open g ≡ true → OpenOnlyAt k d

-- The open issue, if there is one.
abbrev pub LiveOf : Dict GapIssue → Option GapIssue → Type 0
LiveOf d none = NoneOpen d
LiveOf d (some g) = (lookup g.issue_id d ≡ some g) × (is_open g ≡ true)

pub list_gaps_lem :
    (z : Platform) (d : Dict GapIssue)
    → GoodGaps z d
    → (l : List GapIssue) × (list_gaps z d ≡ returns l)
      × ((g : GapIssue) → In g l → (n : String) × (lookup n d ≡ some g))
      × ((n : String) (g : GapIssue) → lookup n d ≡ some g → In g l)
unfolding list_gaps
list_gaps_lem z d good = load_all-Loaded (is_gap_issue z) _ d good.valid

pub find_live_lem :
    (z : Platform) (d : Dict GapIssue)
    → GoodGaps z d
    → (o : Option GapIssue) × (find_live z d ≡ returns o) × LiveOf d o
unfolding find_live ◌>>=◌
find_live_lem z d good =
    let (l, e, stored, complete) = list_gaps_lem z d good in
    elim (Option-cases (find is_open l)) [
      | inl none_found ↦
          (none, rw (e, none_found) refl, λ k g h. find-none is_open l none_found (complete k g h))
      | inr (g, found) ↦
          let (i, is) = find-some is_open l g found in
          let (n, at) = stored g i in
          (
            some g,
            rw (e, found) refl,
            (subst (λ k. lookup k d ≡ some g) (sym (good.named n g at)) at, is),
          )
    ]

module _ (z : Platform) (d : Dict GapIssue) (good : GoodGaps z d) (k : String) (g : GapIssue)
    (valid : is_gap_issue z g ≡ true) (named : g.issue_id ≡ k) (only : OpenOnlyAt k d) where
  assign-OpenOnlyAt : OpenOnlyAt k (assign k g d)
  assign-OpenOnlyAt j h at is = elim (assigned k j g h d at) [
    | inl (same, e) ↦ sym same
    | inr old ↦ only j h old is
  ]

  -- A write of the only issue that may be open.
  pub assign-GoodGaps : GoodGaps z (assign k g d)
  assign-GoodGaps = record {
    valid = λ j h at. elim (assigned k j g h d at) [
      | inl (same, e) ↦ rw (← e) valid
      | inr old ↦ good.valid j h old
    ];
    named = λ j h at. elim (assigned k j g h d at) [
      | inl (same, e) ↦ rw (← e, ← same) named
      | inr old ↦ good.named j h old
    ];
    single =
        λ i f at is j h at' is'. assign-OpenOnlyAt j h at' is' ∙ sym (assign-OpenOnlyAt i f at is);
  }

  -- Once it is closed, none is open.
  pub assign-NoneOpen : is_open g ≡ false → NoneOpen (assign k g d)
  assign-NoneOpen closed j h at = elim (Bool-cases (is_open h)) [
    | inr shut ↦ shut
    | inl is ↦
        let here' : lookup k (assign k g d) ≡ some h =
          subst (λ i. lookup i (assign k g d) ≡ some h) (assign-OpenOnlyAt j h at is) at in
        let same : some g ≡ some h = sym (lookup-assign_self k g d) ∙ here' in
        let same' : g ≡ h = ground arith in rw (← same') closed
  ]

-- A valid open issue is read and returned.
pub open_gap_lem :
    (z : Platform) (id : String) (d : Dict GapIssue) (g : GapIssue)
    → lookup id d ≡ some g
    → is_gap_issue z g ≡ true
    → is_open g ≡ true
    → open_gap z id d ≡ returns g
unfolding open_gap ◌>>=◌ ◌>>◌ require
open_gap_lem z id d g h valid is = rw (h, parsed-some (is_gap_issue z) _ g valid, is) refl

-- The slots and the time that a tick writes.
pub record Fits (z : Platform) (missed : List MissedSlot) (at : String) : Type 0 where
  pub dated : all (λ m. z.is_date m.local_date) missed ≡ true
  pub few : leb (length missed) 32 ≡ true
  pub timed : z.is_time at ≡ true

with_missed-valid :
    (z : Platform) (g : GapIssue) (missed : List MissedSlot) (at : String)
    → Fits z missed at
    → is_gap_issue z g ≡ true
    → is_gap_issue z (with_missed g missed at) ≡ true
unfolding is_gap_issue
with_missed-valid z g missed at f h = rw (f.dated, f.few, f.timed) (ground arith)

new_gap-valid :
    (z : Platform) (missed : List MissedSlot) (at : String)
    → Fits z missed at
    → z.is_id (z.gap_id at missed) ≡ true
    → is_gap_issue z (new_gap z missed at) ≡ true
unfolding is_gap_issue
new_gap-valid z missed at f h = rw (f.dated, f.few, f.timed, h) refl

as_resolved-valid :
    (z : Platform) (g : GapIssue) (at : String) (ids : List String)
    → z.is_time at ≡ true
    → all z.is_id ids ≡ true
    → leb (length ids) 32 ≡ true
    → is_gap_issue z g ≡ true
    → is_gap_issue z (as_resolved g at ids) ≡ true
unfolding is_gap_issue
as_resolved-valid z g at ids timed named few h = rw (timed, named, few) (ground arith)

pub id-valid : (z : Platform) (g : GapIssue) → is_gap_issue z g ≡ true → z.is_id g.issue_id ≡ true
unfolding is_gap_issue
id-valid z g h = ground arith

-- The directory has that issue open, with these slots since that time.
pub record OpenWith (missed : List MissedSlot) (at : String) (id : String) (d : Dict GapIssue)
    : Type 0 where
  pub issue : GapIssue
  pub stored : lookup id d ≡ some issue
  pub is_opened : is_open issue ≡ true
  pub slots : issue.missed_slots ≡ missed
  pub since : issue.updated_at ≡ at

module _ (z : Platform) (d : Dict GapIssue) (good : GoodGaps z d) (missed : List MissedSlot)
    (at : String) (fits : Fits z missed at) where
  pub update_gap_lem :
      (g : GapIssue)
      → LiveOf d (some g)
      → (d' : Dict GapIssue) × (update_gap z g.issue_id missed at d
          ≡ returns (with_missed g missed at, d'))
        × (GoodGaps z d' × OpenWith missed at g.issue_id d')
  unfolding update_gap ◌>>=◌
  update_gap_lem g (stored, is) =
      let valid = good.valid g.issue_id g stored in
      let new = with_missed g missed at in
      (
        assign g.issue_id new d,
        rw (open_gap_lem z g.issue_id d g stored valid is) refl,
        (
          assign-GoodGaps z d good g.issue_id new (with_missed-valid z g missed at fits valid) refl
              (good.single g.issue_id g stored is),
          record {
            issue = new;
            stored = lookup-assign_self g.issue_id new d;
            is_opened = is;
            slots = refl;
            since = refl;
          },
        ),
      )

  pub create_gap_lem :
      z.is_id (z.gap_id at missed) ≡ true
      → find_live z d ≡ returns none
      → NoneOpen d
      → (d' : Dict GapIssue) × (create_gap z missed at d ≡ returns (new_gap z missed at, d'))
        × (GoodGaps z d' × OpenWith missed at (z.gap_id at missed) d')
  unfolding create_gap ◌>>=◌
  create_gap_lem named none_live none_open =
      let new = new_gap z missed at in
      let id = z.gap_id at missed in
      (
        assign id new d,
        rw none_live refl,
        (
          assign-GoodGaps z d good id new (new_gap-valid z missed at fits named) refl
              (λ j h e is. absurd (differ (sym (none_open j h e) ∙ is))),
          record {
            issue = new;
            stored = lookup-assign_self id new d;
            is_opened = refl;
            slots = refl;
            since = refl;
          },
        ),
      )

pub resolve_gap_lem :
    (z : Platform) (d : Dict GapIssue)
    → GoodGaps z d
    → (at : String) (ids : List String) → z.is_time at ≡ true
    → all z.is_id ids ≡ true
    → leb (length ids) 32 ≡ true
    → (g : GapIssue) → LiveOf d (some g)
    → (d' : Dict GapIssue) × (resolve_gap z g.issue_id at ids d
        ≡ returns (as_resolved g at ids, d'))
      × (GoodGaps z d' × NoneOpen d')
unfolding resolve_gap ◌>>=◌
resolve_gap_lem z d good at ids timed named few g (stored, is) =
    let valid = good.valid g.issue_id g stored in
    let new = as_resolved g at ids in
    let new_valid = as_resolved-valid z g at ids timed named few valid in
    let only = good.single g.issue_id g stored is in
    (
      assign g.issue_id new d,
      rw (open_gap_lem z g.issue_id d g stored valid is) refl,
      (
        assign-GoodGaps z d good g.issue_id new new_valid refl only,
        assign-NoneOpen z d good g.issue_id new new_valid refl only refl,
      ),
    )
