-- ===== src/Convert/Runs.antt =====
-- scripts/convert_csv.js: rows that follow each other and have one transaction id.
use antimoney.Prelude.{
  ◌≡◌, refl, ap, Bool, true, false, ◌&&◌, List, [], ◌∷◌, length, ltb, eqb_iff, arith, if◌then◌else◌,
}
use antimoney.Register.Search.{Text}
use antimoney.Editor.{same_text}
use antimoney.Convert.Journal.{TxId, null, missing, text, Tx, same_id, txid}

abbrev pub Row : Type 0
Row = List Text

-- Rows that follow each other and have one id.
pub record Run : Type 0 where
  pub first : Row
  pub rest : List Row

abbrev pub add_row : Row → List Run → List Run
add_row r [] = record { first = r; rest = [] } ∷ []
add_row r (g ∷ gs) =
    if same_id (txid g.first) (txid r)
    then record { first = r; rest = g.first ∷ g.rest } ∷ gs
    else record { first = r; rest = [] } ∷ g ∷ gs

-- The rows cut where the id changes.
abbrev pub runs : List Row → List Run
runs [] = []
runs (r ∷ rs) = add_row r (runs rs)

same_text_eq : (s t : Text) → same_text s t ≡ true → s ≡ t
same_text_eq [] [] h = refl
same_text_eq [] (d ∷ t) h = absurd (cc)
same_text_eq (c ∷ s) [] h = absurd (cc)
same_text_eq (c ∷ s) (d ∷ t) h = ground (arith, h, eqb_iff c d, same_text_eq s t)

same_text_refl : (s : Text) → same_text s s ≡ true
same_text_refl [] = refl
same_text_refl (c ∷ s) = ground (arith, same_text_refl s)

pub same_id_eq : (i j : TxId) → same_id i j ≡ true → i ≡ j
same_id_eq null null h = refl
same_id_eq null missing h = absurd (cc)
same_id_eq null (text t) h = absurd (cc)
same_id_eq missing null h = absurd (cc)
same_id_eq missing missing h = refl
same_id_eq missing (text t) h = absurd (cc)
same_id_eq (text s) null h = absurd (cc)
same_id_eq (text s) missing h = absurd (cc)
same_id_eq (text s) (text t) h = ap text (same_text_eq s t h)

pub same_id_refl : (i : TxId) → same_id i i ≡ true
same_id_refl null = refl
same_id_refl missing = refl
same_id_refl (text t) = same_text_refl t

pub length_zero {ℓ} : {A : Type ℓ} (l : List A) → ltb 0 (length l) ≡ false → l ≡ []
length_zero [] h = refl
length_zero (x ∷ l) h = absurd (ground (arith, h))

pub Bool-and_false : (b : Bool) → (b && false) ≡ false
Bool-and_false true = refl
Bool-and_false false = refl

abbrev pub has_splits : Tx → Bool
has_splits t = ltb 0 (length t.splits)
