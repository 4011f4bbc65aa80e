-- ===== src/Autonomy/Watchdog/Tick/GapsLeft.antt =====
-- The tick of src/autonomy/missed-slot-watchdog.ts: what it leaves of the gap issues.
use ycm_harness.Common.{
  ◌≡◌, ◌≢◌, refl, sym, ap, ◌∙◌, inl, inr, ◌+◌, ◌≤◌, String, Bool, true, false, Option, none, some,
  List, [], ◌∷◌, ◌==◌, arith, eq_iff, all, find, find-some, leb, length, Dict, lookup, In,
  Bool-cases, differ, returns, ◌>>=◌, ◌>>◌, require, if◌then◌else◌,
}
use ycm_harness.Autonomy.Watchdog.{MissedSlot, GapIssue, DueSlot, Platform}
use ycm_harness.Autonomy.Watchdog.Files.{
  is_open, find_live, new_gap, with_missed, as_resolved, optional,
}
use ycm_harness.Autonomy.Watchdog.Files.Single.{
  NoneOpen, GoodGaps, LiveOf, list_gaps_lem, find_live_lem, Fits, OpenWith, id-valid,
  update_gap_lem, create_gap_lem, resolve_gap_lem,
}
use ycm_harness.Autonomy.Watchdog.Tick.{Settled, settled_as, settle, kept_id, next_id}
use ycm_harness.Autonomy.Watchdog.Tick.Sightings.{
  WatchdogFiles, reopened, live_gap, all_ok, gap_open, gap_updated, gap_resolved, disabled,
}

-- A saved identifier is that of the open issue, if there is one.
abbrev pub Follows : Dict GapIssue → Option String → Type 0
Follows d none = Unit
Follows d (some id) = (k : String) (g : GapIssue) → lookup k d ≡ some g → is_open g ≡ true → id ≡ k

module _ (z : Platform) (d : Dict GapIssue) (good : GoodGaps z d) where
  not_reopened :
      (id : String) (l : List GapIssue)
      → ((g : GapIssue) → In g l → is_open g ≡ false)
      → (o : Option GapIssue) → find (λ g. g.issue_id == id) l ≡ o
      → reopened o ≡ none
  not_reopened id l shut none e = refl
  not_reopened id l shut (some g) e =
      let (i, q) = find-some (λ g. g.issue_id == id) l g e in rw (shut g i) refl

  live_of :
      (saved : Option String)
      → Follows d saved
      → (o : Option GapIssue) → find_live z d ≡ returns o
      → LiveOf d o
      → live_gap z d saved ≡ returns o
  unfolding live_gap ◌>>=◌ ◌>>◌ require
  live_of none f none e h = rw e refl
  live_of none f (some g) e h = rw e refl
  live_of (some id) f (some g) e (at, is) =
      let same = (eq_iff g.issue_id id).1 (sym (f g.issue_id g at is)) in
      rw (e, same) (ground arith)
  live_of (some id) f none e h = elim (Bool-cases (id == "")) [
    | inl empty ↦ rw (e, empty) refl
    | inr given ↦
        let (l, e', stored, complete) = list_gaps_lem z d good in
        rw (e, given, e')
          (ap returns (not_reopened id l (λ g i. let (n, at) = stored g i in h n g at) _ refl))
  ]

  -- The live issue is found, and it is no conflict.
  pub live_gap_lem :
      (saved : Option String)
      → Follows d saved
      → (o : Option GapIssue) × (live_gap z d saved ≡ returns o)
        × (find_live z d ≡ returns o)
        × LiveOf d o
  live_gap_lem saved f = let (o, e, h) = find_live_lem z d good in (o, live_of saved f o e h, e, h)

kept_id-Follows : (d : Dict GapIssue) (o : Option String) → Follows d o → Follows d (kept_id o)
kept_id-Follows d none f = f
kept_id-Follows d (some id) f =
    elim (Bool-cases (id == "")) as (λ q. Follows d (kept_id (some id))) [
      | inl e ↦ rw e tt
      | inr e ↦ rw e f
    ]

kept_id-valid :
    (z : Platform) (o : Option String)
    → optional z.is_id o ≡ true
    → optional z.is_id (kept_id o) ≡ true
kept_id-valid z none h = refl
kept_id-valid z (some id) h = elim (Bool-cases (id == "")) [ inl e ↦ rw e refl | inr e ↦ rw e h ]

pub none-Follows : (d : Dict GapIssue) (o : Option String) → NoneOpen d → Follows d o
none-Follows d none h = tt
none-Follows d (some id) h = λ k g e is. absurd (differ (sym (h k g e) ∙ is))

open-Follows :
    (z : Platform) (d : Dict GapIssue) (missed : List MissedSlot) (at id : String)
    → GoodGaps z d
    → OpenWith missed at id d
    → Follows d (some id)
open-Follows z d missed at id good o k g e is =
    sym (good.single id o.issue o.stored o.is_opened k g e is)

-- What a tick leaves of the gap issues: one is open exactly when slots were missed, with these.
pub record Left (z : Platform) (at : String) (missed : List MissedSlot) (s : Settled) : Type 0 where
  pub good : GoodGaps z s.gaps
  pub ran : s.outcome ≢ disabled
  pub quiet : missed ≡ [] → NoneOpen s.gaps
  pub alarm : missed ≢ [] → (id : String) × OpenWith missed at id s.gaps
  pub follows : Follows s.gaps (next_id s.outcome s.gap_id)
  pub id_valid : optional z.is_id (next_id s.outcome s.gap_id) ≡ true

if-same : {A : Type 0} (b : Bool) (a : A) → (if b then a else a) ≡ a
if-same b a = elim (Bool-cases b) [ inl e ↦ rw e refl | inr e ↦ rw e refl ]

module _ (z : Platform) (at : String) (w : WatchdogFiles) (good : GoodGaps z w.gaps)
    (saved : Option String) (saved_valid : optional z.is_id saved ≡ true)
    (timed : z.is_time at ≡ true) (due : List DueSlot) (recovered : List String)
    (ids : all z.is_id recovered ≡ true) where
  pub settle-Left :
      (missed : List MissedSlot)
      → length due ≡ length recovered + length missed
      → length due ≤ 6
      → all (λ m. z.is_date m.local_date) missed ≡ true
      → z.is_id (z.gap_id at missed) ≡ true
      → (o : Option GapIssue) → find_live z w.gaps ≡ returns o
      → LiveOf w.gaps o
      → (s : Settled) × (settle z at w saved due recovered missed o ≡ returns s)
        × Left z at missed s
  unfolding settle ◌>>=◌
  settle-Left [] count few dates named none e live = (
    record { outcome = all_ok; gap_id = saved; gaps = w.gaps },
    refl,
    record {
      good = good;
      ran = λ q. cc;
      quiet = λ h. live;
      alarm = λ n. absurd (n refl);
      follows = none-Follows w.gaps (kept_id saved) live;
      id_valid = kept_id-valid z saved saved_valid;
    },
  )
  settle-Left [] count few dates named (some g) e live =
      let all_recovered : leb (length due) (length recovered) ≡ true = ground arith in
      let short : leb (length recovered) 32 ≡ true = ground arith in
      let (d', e', (good', closed)) =
        resolve_gap_lem z w.gaps good at recovered timed ids short g live in
      (
        settled_as gap_resolved (as_resolved g at recovered, d'),
        rw (all_recovered, e') refl,
        record {
          good = good';
          ran = λ q. cc;
          quiet = λ h. closed;
          alarm = λ n. absurd (n refl);
          follows = tt;
          id_valid = refl;
        },
      )
  settle-Left (m ∷ missed) count few dates named none e live =
      let short : leb (length (m ∷ missed)) 32 ≡ true = ground arith in
      let fits : Fits z (m ∷ missed) at = record { dated = dates; few = short; timed = timed } in
      let (d', e', (good', opened')) =
        create_gap_lem z w.gaps good (m ∷ missed) at fits named e live in
      (
        settled_as gap_open (new_gap z (m ∷ missed) at, d'),
        rw e' refl,
        record {
          good = good';
          ran = λ q. cc;
          quiet = λ h. cc;
          alarm = λ n. (z.gap_id at (m ∷ missed), opened');
          follows =
              kept_id-Follows d' (some (z.gap_id at (m ∷ missed)))
                (open-Follows z d' (m ∷ missed) at _ good' opened');
          id_valid = kept_id-valid z (some (z.gap_id at (m ∷ missed))) named;
        },
      )
  settle-Left (m ∷ missed) count few dates named (some g) e live =
      let short : leb (length (m ∷ missed)) 32 ≡ true = ground arith in
      let fits : Fits z (m ∷ missed) at = record { dated = dates; few = short; timed = timed } in
      let (d', e', (good', opened')) = update_gap_lem z w.gaps good (m ∷ missed) at fits g live in
      (
        settled_as gap_updated (with_missed g (m ∷ missed) at, d'),
        rw (if-same, e') refl,
        record {
          good = good';
          ran = λ q. cc;
          quiet = λ h. cc;
          alarm = λ n. (g.issue_id, opened');
          follows =
              kept_id-Follows d' (some g.issue_id)
                (open-Follows z d' (m ∷ missed) at _ good' opened');
          id_valid =
              kept_id-valid z (some g.issue_id) (id-valid z g (good.valid g.issue_id g (live.0)));
        },
      )
