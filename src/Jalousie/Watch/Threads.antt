-- ===== src/Jalousie/Watch/Threads.antt =====
-- The list of the timer threads of src/jalousie.cpp, and which shutter an id stands for.
use haussteuerung.Prelude.{
  ℕ, ◌+◌, ◌≤◌, ◌<◌, ◌≡◌, refl, ◌≢◌, List, [], ◌∷◌, Option, none, some, if◌then◌else◌, ◌==◌, arith,
  ap, ◌∙◌,
}
use haussteuerung.Jalousie.State.{Thread, Phase, cancel, cancel_id}
use haussteuerung.Jalousie.Timer.{find, set_phase, remove}

-- The shutter of the thread of an id.
unfoldable pub owner_id : ℕ → List Thread → Option ℕ
owner_id i [] = none
owner_id i (t ∷ ts) = if t.id == i then some t.jal_nr else owner_id i ts

unfoldable pub owner : Option ℕ → List Thread → Option ℕ
owner none ts = none
owner (some i) ts = owner_id i ts

abbrev pub Below : ℕ → Option ℕ → Type 0
Below n none = Unit {0}
Below n (some i) = i < n

abbrev pub AllBelow : ℕ → List Thread → Type 0
AllBelow n [] = Unit {0}
AllBelow n (t ∷ ts) = (t.id < n) × AllBelow n ts

pub owner_id-cancel_id :
    (i k : ℕ) (ts : List Thread) → i ≢ k → owner_id i (cancel_id k ts) ≡ owner_id i ts
unfolding owner_id cancel_id
owner_id-cancel_id i k [] h = refl
owner_id-cancel_id i k (t ∷ ts) h = ground (arith, owner_id-cancel_id i k ts h)

pub owner_id-remove :
    (i k : ℕ) (ts : List Thread) → i ≢ k → owner_id i (remove k ts) ≡ owner_id i ts
unfolding owner_id remove
owner_id-remove i k [] h = refl
owner_id-remove i k (t ∷ ts) h = ground (arith, owner_id-remove i k ts h)

pub owner_id-set_phase :
    (i k : ℕ) (p : Phase) (ts : List Thread) → owner_id i (set_phase k p ts) ≡ owner_id i ts
unfolding owner_id set_phase
owner_id-set_phase i k p [] = refl
owner_id-set_phase i k p (t ∷ ts) = ground (arith, owner_id-set_phase i k p ts)

pub owner_id-find :
    (i : ℕ) (t : Thread) (ts : List Thread)
    → find i ts ≡ some t
    → (owner_id i ts ≡ some t.jal_nr) × (t.id ≡ i)
unfolding owner_id find
owner_id-find i t [] h = ground arith
owner_id-find i t (u ∷ ts) h = ground (arith, owner_id-find i t ts)

pub AllBelow-cancel_id : (n k : ℕ) (ts : List Thread) → AllBelow n ts → AllBelow n (cancel_id k ts)
unfolding cancel_id
AllBelow-cancel_id n k [] h = tt
AllBelow-cancel_id n k (t ∷ ts) h = ground (arith, AllBelow-cancel_id n k ts)

pub AllBelow-remove : (n k : ℕ) (ts : List Thread) → AllBelow n ts → AllBelow n (remove k ts)
unfolding remove
AllBelow-remove n k [] h = tt
AllBelow-remove n k (t ∷ ts) h = ground (arith, AllBelow-remove n k ts)

pub AllBelow-set_phase :
    (n k : ℕ) (p : Phase) (ts : List Thread) → AllBelow n ts → AllBelow n (set_phase k p ts)
unfolding set_phase
AllBelow-set_phase n k p [] h = tt
AllBelow-set_phase n k p (t ∷ ts) h = ground (arith, AllBelow-set_phase n k p ts)

pub AllBelow-suc : (n : ℕ) (ts : List Thread) → AllBelow n ts → AllBelow (n + 1) ts
AllBelow-suc n [] h = tt
AllBelow-suc n (t ∷ ts) h = (omega arith, AllBelow-suc n ts h.1)

pub owner_id-none : (n i : ℕ) (ts : List Thread) → AllBelow n ts → n ≤ i → owner_id i ts ≡ none
unfolding owner_id
owner_id-none n i [] h k = refl
owner_id-none n i (t ∷ ts) h k = ground (arith, owner_id-none n i ts)

pub owner-cancel :
    (o o' : Option ℕ) (ts : List Thread) (j k : ℕ)
    → owner o ts ≡ some j
    → owner o' ts ≡ some k
    → j ≢ k
    → owner o (cancel o' ts) ≡ some j
unfolding owner cancel
owner-cancel none o' ts j k p q h = ground arith
owner-cancel (some i) none ts j k p q h = ground arith
owner-cancel (some i) (some i') ts j k p q h = ground (arith, owner_id-cancel_id i i' ts)

pub AllBelow-cancel :
    (n : ℕ) (o : Option ℕ) (ts : List Thread) → AllBelow n ts → AllBelow n (cancel o ts)
unfolding cancel
AllBelow-cancel n none ts h = h
AllBelow-cancel n (some k) ts h = AllBelow-cancel_id n k ts h

-- A thread with a new id changes nothing for the older ones.
pub owner-cons :
    (o : Option ℕ) (t : Thread) (ts : List Thread) → Below t.id o → owner o (t ∷ ts) ≡ owner o ts
unfolding owner owner_id
owner-cons none t ts h = refl
owner-cons (some i) t ts h = ground arith

pub owner-set_phase :
    (o : Option ℕ) (k : ℕ) (p : Phase) (ts : List Thread) → owner o (set_phase k p ts) ≡ owner o ts
unfolding owner
owner-set_phase none k p ts = refl
owner-set_phase (some i) k p ts = owner_id-set_phase i k p ts

pub owner-apart :
    (o : Option ℕ) (x : ℕ) (ts : List Thread) (j : ℕ)
    → owner o ts ≡ some j
    → o ≢ some x
    → owner o (remove x ts) ≡ some j
unfolding owner
owner-apart none x ts j p q = p
owner-apart (some i) x ts j p q = owner_id-remove i x ts (λ e. q (ap some e)) ∙ p

pub find-below :
    (i : ℕ) (t : Thread) (n : ℕ) (ts : List Thread) → find i ts ≡ some t → AllBelow n ts → i < n
unfolding find
find-below i t n [] f h = ground arith
find-below i t n (u ∷ ts) f h = ground (arith, find-below i t n ts)
