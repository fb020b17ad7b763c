-- ===== src/Profile/Tail.antt =====
-- The end of a history, as the trimming of app/profile/synthesize.py leaves it.
use job_match_pipeline.Prelude.{suc, ◌≡◌, refl, sym, ap, ◌∙◌, String, List, [], ◌∷◌, ◌++◌, length}
use mathlib.Core.List.{append_assoc, append-nil}
use job_match_pipeline.Extract.Synthesize.{pop}
use job_match_pipeline.Profile.Schema.{WorkHistoryEntry}
use job_match_pipeline.Profile.Document.{RoleText}

pub length-pop : (x : String) (xs : List String) → suc (length (pop (x ∷ xs))) ≡ length (x ∷ xs)
length-pop x [] = refl
length-pop x (y ∷ ys) = ap suc (length-pop y ys)

-- The items before the last.
pop-prefix : (x : String) (xs : List String) → (l : String) × (x ∷ xs ≡ pop (x ∷ xs) ++ l ∷ [])
pop-prefix x [] = (x, refl)
pop-prefix x (y ∷ ys) = let (l, e) = pop-prefix y ys in (l, ap (λ zs. x ∷ zs) e)

-- The later roles are whole, the first has its first bullets, and the roles before it are gone.
pub record IsTail (history kept : List RoleText) : Type 0 where
  pub older : List RoleText
  pub entry : WorkHistoryEntry
  pub bullets : List String
  pub gone : List String
  pub later : List RoleText
  pub before : history ≡ older ++ (entry, bullets ++ gone) ∷ later
  pub after : kept ≡ (entry, bullets) ∷ later

tail_of : List RoleText → List RoleText
tail_of [] = []
tail_of (h ∷ hs) = hs

head_or : RoleText → List RoleText → RoleText
head_or d [] = d
head_or d (h ∷ hs) = h

regrow :
    (e : WorkHistoryEntry) (b : String) (bs : List String) (rest kept older : List RoleText)
    (entry : WorkHistoryEntry) (bullets gone : List String) (later : List RoleText)
    → (e, pop (b ∷ bs)) ∷ rest ≡ older ++ (entry, bullets ++ gone) ∷ later
    → kept ≡ (entry, bullets) ∷ later
    → IsTail ((e, b ∷ bs) ∷ rest) kept
unfolding tail_of head_or
regrow e b bs rest kept [] entry bullets gone later before after =
    let (l, whole) = pop-prefix b bs in
    let first = ap (head_or (e, [])) before in
    let now : (e, b ∷ bs) ≡ (entry, bullets ++ (gone ++ l ∷ [])) = λ i. (
      (first i).0,
      (whole ∙ ap (λ xs. xs ++ l ∷ []) (ap (λ r. r.1) first) ∙ append_assoc bullets gone (l ∷ []))
          i,
    ) in
    record {
      older = [];
      entry = entry;
      bullets = bullets;
      gone = gone ++ l ∷ [];
      later = later;
      before = λ i. now i ∷ (ap tail_of before) i;
      after = after;
    }
regrow e b bs rest kept (o ∷ os) entry bullets gone later before after = record {
  older = (e, b ∷ bs) ∷ os;
  entry = entry;
  bullets = bullets;
  gone = gone;
  later = later;
  before = ap (λ hs. (e, b ∷ bs) ∷ hs) (ap tail_of before);
  after = after;
}

pub IsTail-pop :
    (e : WorkHistoryEntry) (b : String) (bs : List String) (rest kept : List RoleText)
    → IsTail ((e, pop (b ∷ bs)) ∷ rest) kept
    → IsTail ((e, b ∷ bs) ∷ rest) kept
IsTail-pop e b bs rest kept h =
    regrow e b bs rest kept h.older h.entry h.bullets h.gone h.later h.before h.after

pub IsTail-older :
    (r : RoleText) (rest kept : List RoleText) → IsTail rest kept → IsTail (r ∷ rest) kept
IsTail-older r rest kept h = record {
  older = r ∷ h.older;
  entry = h.entry;
  bullets = h.bullets;
  gone = h.gone;
  later = h.later;
  before = ap (λ hs. r ∷ hs) h.before;
  after = h.after;
}

pub IsTail-refl : (r : RoleText) (rest : List RoleText) → IsTail (r ∷ rest) (r ∷ rest)
IsTail-refl (e, bs) rest = record {
  older = [];
  entry = e;
  bullets = bs;
  gone = [];
  later = rest;
  before = rw (append-nil {A = String} bs) refl;
  after = refl;
}

pub IsTail-step :
    (a b c older more : List RoleText) (entry e : WorkHistoryEntry)
    (bullets gone bs lost : List String) (later rest : List RoleText)
    → a ≡ older ++ (entry, bullets ++ gone) ∷ later
    → (entry, bullets) ∷ later ≡ more ++ (e, bs ++ lost) ∷ rest
    → c ≡ (e, bs) ∷ rest
    → IsTail a c
unfolding tail_of head_or
IsTail-step a b c older [] entry e bullets gone bs lost later rest before middle after =
    let first = ap (head_or (entry, [])) middle in
    let now : (entry, bullets ++ gone) ≡ (e, bs ++ (lost ++ gone)) = λ i.
      ((first i).0, (ap (λ xs. xs ++ gone) (ap (λ r. r.1) first) ∙ append_assoc bs lost gone) i) in
    record {
      older = older;
      entry = e;
      bullets = bs;
      gone = lost ++ gone;
      later = rest;
      before = before ∙ (λ i. older ++ now i ∷ (ap tail_of middle) i);
      after = after;
    }
IsTail-step a b c older (m ∷ more) entry e bullets gone bs lost later rest before middle after =
    record {
      older = older ++ (entry, bullets ++ gone) ∷ more;
      entry = e;
      bullets = bs;
      gone = lost;
      later = rest;
      before =
          before
          ∙ ap (λ hs. older ++ (entry, bullets ++ gone) ∷ hs) (ap tail_of middle)
          ∙ sym (append_assoc older ((entry, bullets ++ gone) ∷ more) ((e, bs ++ lost) ∷ rest));
      after = after;
    }
