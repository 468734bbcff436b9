-- ===== src/Pvp/Log/Same.antt =====
-- pvp-championship: with and without its log, a process does the same.
use sp_hw.Base.{◌≡◌, ap, ◌∙◌, Option, none, some}
use sp_hw.Base.Error.{◌>>=◌}

-- A result with its log, and without: there is none of either, or both are the same, and `good` holds
-- of the result and its log.
pub data Logs {A L : Type 0} (m : Option (A × L)) (n : Option A) (good : A → L → Type 0)
    : Type 0 where
  neither : m ≡ none → n ≡ none → Logs m n good
  both : (a : A) (l : L) → m ≡ some (a, l) → n ≡ some a → good a l → Logs m n good

-- One step behind another.
pub Logs-bind :
    {A B L R : Type 0} {m : Option (A × L)} {n : Option A} {good : A → L → Type 0}
    (k : A × L → Option (B × R)) (rest : Option A → Option B) (good' : B → R → Type 0)
    → rest none ≡ none
    → Logs m n good
    → ((a : A) (l : L) → good a l → Logs (k (a, l)) (rest (some a)) good')
    → Logs (m >>= k) (rest n) good'
Logs-bind k rest good' strict (neither e f) h = neither (ap (λ v. v >>= k) e) (ap rest f ∙ strict)
Logs-bind k rest good' strict (both a l e f g) h = elim (h a l g) [
  | neither e' f' ↦ neither (ap (λ v. v >>= k) e ∙ e') (ap rest f ∙ f')
  | both b r e' f' g' ↦ both b r (ap (λ v. v >>= k) e ∙ e') (ap rest f ∙ f') g'
]
