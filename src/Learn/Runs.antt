-- ===== src/Learn/Runs.antt =====
-- The segments of a run of steps are its maximal blocks of actions.
use mathlib.Core.Path.{subst}
use astrbot_shipyard_neo.Base.{
  ◌≡◌, ◌≤◌, refl, sym, ap, ◌∙◌, Bool, true, false, List, [], ◌∷◌, ◌++◌, length, leb, All, All-snoc,
  In, append_assoc, append-nil, Bool-cases, ◌⊎◌, ◌↔◌, inl, inr, arith, if◌then◌else◌,
}
use astrbot_shipyard_neo.Learn.Steps.{Step}
use astrbot_shipyard_neo.Learn.Segments.{is_actionable, close, segments_from, segments_of}

abbrev Act : Step → Type 0
Act s = is_actionable s ≡ true

-- A list that is empty or ends, or begins, with a step that is no action.
abbrev pub Ends : List Step → Type 0
Ends [] = Unit
Ends (s ∷ []) = is_actionable s ≡ false
Ends (s ∷ t ∷ ss) = Ends (t ∷ ss)

abbrev pub Starts : List Step → Type 0
Starts [] = Unit
Starts (s ∷ ss) = is_actionable s ≡ false

-- A block of at least two actions that no action precedes or follows.
pub record IsBlock (steps block : List Step) : Type 0 where
  pub front : List Step
  pub back : List Step
  pub whole : steps ≡ front ++ (block ++ back)
  pub actions : All Act block
  pub long : 2 ≤ length block
  pub before : Ends front
  pub after : Starts back

Ends-append :
    (cur : List Step) (s : Step) (front : List Step)
    → is_actionable s ≡ false
    → Ends front
    → Ends (cur ++ (s ∷ front))
Ends-append [] s [] bad e = bad
Ends-append [] s (t ∷ front) bad e = e
Ends-append (c ∷ []) s front bad e = Ends-append [] s front bad e
Ends-append (c ∷ d ∷ cur) s front bad e = Ends-append (d ∷ cur) s front bad e

close-In :
    (cur : List Step) (rest : List (List Step)) (block : List Step)
    → In block (close cur rest)
    → ((block ≡ cur) × (2 ≤ length cur)) ⊎ In block rest
close-In cur rest block i = elim (Bool-cases (leb 2 (length cur))) [
  | inl long ↦ elim (subst (λ (b : Bool). In block (if b then cur ∷ rest else rest)) long i) [
    | inl e ↦ inl (e, ground arith)
    | inr i' ↦ inr i'
  ]
  | inr short ↦ inr (subst (λ (b : Bool). In block (if b then cur ∷ rest else rest)) short i)
]

later-IsBlock :
    (cur : List Step) (s : Step) (ss : List Step) {block : List Step}
    → is_actionable s ≡ false
    → IsBlock ss block
    → IsBlock (cur ++ (s ∷ ss)) block
later-IsBlock cur s ss {block} bad b = record {
  front = cur ++ (s ∷ b.front);
  back = b.back;
  whole = ap (λ t. cur ++ (s ∷ t)) b.whole ∙ sym (append_assoc cur (s ∷ b.front) (block ++ b.back));
  actions = b.actions;
  long = b.long;
  before = Ends-append cur s b.front bad b.before;
  after = b.after;
}

segments_from-IsBlock :
    (cur ss : List Step) (block : List Step)
    → All Act cur
    → In block (segments_from cur ss)
    → IsBlock (cur ++ ss) block
unfolding segments_from
segments_from-IsBlock cur [] block acts i = elim (close-In cur [] block i) [
  | inl (e, long) ↦
      subst (λ b. IsBlock (cur ++ []) b) (sym e)
        (record {
          front = [];
          back = [];
          whole = refl;
          actions = acts;
          long = long;
          before = tt;
          after = tt;
        })
  | inr none ↦ absurd none
]
segments_from-IsBlock cur (s ∷ ss) block acts i = elim (Bool-cases (is_actionable s)) [
  | inl act ↦
      subst (λ t. IsBlock t block) (append_assoc cur (s ∷ []) ss)
        (segments_from-IsBlock (cur ++ s ∷ []) ss block (All-snoc Act cur acts act) (
          subst
            (λ (b : Bool).
              In block
                (if b then segments_from (cur ++ s ∷ []) ss else close cur (segments_from [] ss)))
            act i))
  | inr bad ↦
      elim (close-In cur (segments_from [] ss) block (
        subst
          (λ (b : Bool).
            In block
              (if b then segments_from (cur ++ s ∷ []) ss else close cur (segments_from [] ss)))
          bad i)) [
            | inl (e, long) ↦
                subst (λ b. IsBlock (cur ++ (s ∷ ss)) b) (sym e)
                  (record {
                    front = [];
                    back = s ∷ ss;
                    whole = refl;
                    actions = acts;
                    long = long;
                    before = tt;
                    after = bad;
                  })
            | inr i' ↦ later-IsBlock cur s ss bad (segments_from-IsBlock [] ss block tt i')
          ]
]

Ends-actions : (front : List Step) → All Act front → Ends front → front ≡ []
Ends-actions [] a e = refl
Ends-actions (s ∷ []) a e = cc
Ends-actions (s ∷ t ∷ ss) a e = absurd (empty-cons (Ends-actions (t ∷ ss) a.1 e))
  where
    empty-cons : t ∷ ss ≡ [] → ⊥
    empty-cons h = cc

Starts-actions : (back : List Step) → All Act back → Starts back → back ≡ []
Starts-actions [] a e = refl
Starts-actions (s ∷ ss) a e = cc

All-split : (xs ys : List Step) → All Act (xs ++ ys) → All Act xs × All Act ys
All-split [] ys a = (tt, a)
All-split (x ∷ xs) ys a = let (h, t) = All-split xs ys a.1 in ((a.0, h), t)

-- A block that begins where the steps do, before the first step that is no action.
first_block :
    (block back cur : List Step) (s : Step) (ss : List Step)
    → All Act block
    → All Act cur
    → Starts back
    → is_actionable s ≡ false
    → block ++ back ≡ cur ++ (s ∷ ss)
    → block ≡ cur
first_block [] back [] s ss a c st bad e = refl
first_block [] back (d ∷ cur) s ss a c st bad e =
    let clash : is_actionable d ≡ false = subst Starts e st in cc
first_block (b ∷ block) back [] s ss a c st bad e =
    let same : b ≡ s = cc in let act : is_actionable b ≡ true = a.0 in cc
first_block (b ∷ block) back (d ∷ cur) s ss a c st bad e =
    let same : b ≡ d = cc in
    let rest : block ++ back ≡ cur ++ (s ∷ ss) = cc in
    let ih : block ≡ cur = first_block block back cur s ss a.1 c.1 st bad rest in cc

-- The steps after a first step that is no action.
after_first :
    (front cur : List Step) (f s : Step) (rest ss : List Step)
    → All Act cur
    → Ends (f ∷ front)
    → is_actionable s ≡ false
    → (f ∷ front) ++ rest ≡ cur ++ (s ∷ ss)
    → (front' : List Step) × Ends front' × (front' ++ rest ≡ ss)
after_first front [] f s rest ss c e bad h = (front, Ends-tail f front e, cc)
  where
    Ends-tail : (f : Step) (front : List Step) → Ends (f ∷ front) → Ends front
    Ends-tail f [] e = tt
    Ends-tail f (t ∷ front) e = e
after_first [] (d ∷ cur) f s rest ss c e bad h =
    let same : f ≡ d = cc in let act : is_actionable d ≡ true = c.0 in absurd (cc)
after_first (g ∷ front) (d ∷ cur) f s rest ss c e bad h =
    let tail : (g ∷ front) ++ rest ≡ cur ++ (s ∷ ss) = cc in
    after_first front cur g s rest ss c.1 e bad tail

keep-In :
    (cur : List Step) (rest : List (List Step)) (block : List Step)
    → In block rest
    → In block (close cur rest)
keep-In cur rest block i = elim (Bool-cases (leb 2 (length cur))) [
  | inl long ↦ rw long (inr i)
  | inr short ↦ rw short i
]

close-first :
    (cur : List Step) (rest : List (List Step)) {block : List Step}
    → block ≡ cur
    → 2 ≤ length block
    → In block (close cur rest)
close-first cur rest {block} e long =
    let test : leb 2 (length cur) ≡ true = ground arith in rw test (inl e)

-- The block stands before the first step that is no action, or after it.
split_off :
    (cur : List Step) (s : Step) (ss block back : List Step)
    → All Act cur
    → All Act block
    → 2 ≤ length block
    → Starts back
    → ((front : List Step)
        → Ends front
        → ss ≡ front ++ (block ++ back)
        → In block (segments_from [] ss))
    → (front : List Step) → is_actionable s ≡ false
    → cur ++ (s ∷ ss) ≡ front ++ (block ++ back)
    → Ends front
    → In block (close cur (segments_from [] ss))
split_off cur s ss block back c acts long after ih [] bad whole before =
    close-first cur (segments_from [] ss)
      (first_block block back cur s ss acts c after bad (sym whole)) long
split_off cur s ss block back c acts long after ih (f ∷ front) bad whole before =
    let (front', before', rest) =
      after_first front cur f s (block ++ back) ss c before bad (sym whole) in
    keep-In cur (segments_from [] ss) block (ih front' before' (sym rest))

block-In :
    (cur ss : List Step) (block front back : List Step)
    → All Act cur
    → cur ++ ss ≡ front ++ (block ++ back)
    → All Act block
    → 2 ≤ length block
    → Ends front
    → Starts back
    → In block (segments_from cur ss)
unfolding segments_from
block-In cur [] block front back c whole acts long before after =
    let all : All Act (front ++ (block ++ back)) =
      subst (All Act) (sym (append-nil cur) ∙ whole) c in
    let (af, ab) = All-split front (block ++ back) all in
    let (_, ak) = All-split block back ab in
    let no_front : front ≡ [] = Ends-actions front af before in
    let no_back : back ≡ [] = Starts-actions back ak after in
    close-first cur []
      (sym (append-nil block)
        ∙ ap (λ t. block ++ t) (sym no_back)
        ∙ ap (λ (t : List Step). t ++ (block ++ back)) (sym no_front)
        ∙ sym whole
        ∙ append-nil cur)
      long
block-In cur (s ∷ ss) block front back c whole acts long before after =
    elim (Bool-cases (is_actionable s)) [
      | inl act ↦ rw act (
          block-In (cur ++ s ∷ []) ss block front back (All-snoc Act cur c act)
            (append_assoc cur (s ∷ []) ss ∙ whole) acts long before after)
      | inr bad ↦ rw bad (
          split_off cur s ss block back c acts long after
            (λ f' b' e. block-In [] ss block f' back tt e acts long b' after) front bad whole
            before)
    ]

-- The segments of a run are exactly its blocks: at least two consecutive actions, with no action
-- directly before or after them.
pub segments_of-blocks :
    (steps block : List Step) → In block (segments_of steps) ↔ IsBlock steps block
unfolding segments_of
segments_of-blocks steps block = (
  λ i. segments_from-IsBlock [] steps block tt i,
  λ b. block-In [] steps block b.front b.back tt b.whole b.actions b.long b.before b.after,
)
