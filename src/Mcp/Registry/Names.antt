-- ===== src/Mcp/Registry/Names.antt =====
-- Names of tools with the name of their server before them: `to_core_tool` and `split_tool_name`.
use godwit.Base.{ℕ, Bool, true, false, ◌||◌, some, [], ◌∷◌, ◌++◌, ◌≡◌, refl}
use godwit.Mcp.Registry.{Name, mark, starts_mark, split_tool_name}

-- Whether a name has two underscores in a row.
abbrev pub has_mark : Name → Bool
has_mark [] = false
has_mark (c ∷ s) = starts_mark (c ∷ s) || has_mark s

-- A name that the mark behind it can be told from.
abbrev pub Separable : Name → Type 0
Separable name = has_mark (name ++ (95 ∷ [])) ≡ false

starts_mark-append :
    (c : ℕ) (s t : Name) → starts_mark (c ∷ (s ++ (95 ∷ t))) ≡ starts_mark (c ∷ (s ++ (95 ∷ [])))
starts_mark-append c [] t = refl
starts_mark-append c (d ∷ s) t = refl

neither : (a b : Bool) → (a || b) ≡ false → (a ≡ false) × (b ≡ false)
neither true b h = cc
neither false b h = (refl, h)

pub split_tool_name-mark :
    (name bare : Name)
    → Separable name
    → split_tool_name (name ++ (mark ++ bare)) ≡ some (name, bare)
unfolding split_tool_name
split_tool_name-mark [] bare h = refl
split_tool_name-mark (c ∷ name) bare h =
    let (here, later) =
      neither (starts_mark (c ∷ (name ++ (95 ∷ [])))) (has_mark (name ++ (95 ∷ []))) h in
    rw (starts_mark-append c name (95 ∷ bare), here, split_tool_name-mark name bare later)
