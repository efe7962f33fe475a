-- ===== src/Collectors/FileFd.antt =====
-- src/core/collectors/filefd.rs: `parse` of /proc/sys/fs/file-nr.
use blazebee.Base.{ℕ, ◌^◌, ◌<◌, ◌≡◌, refl, ap, ◌∙◌, [], ◌∷◌, ◌++◌, Result, ok, ◌>>=◌}
use blazebee.Base.Text.{Text, codes}
use blazebee.Collectors.Error.{CollectorError}
use blazebee.Collectors.Procfs.{fields, pieces, non_empty, next_field}
use blazebee.Collectors.Procfs.Numbers.{decimal, next_field-decimal, pieces_word, decimal-IsWord}

abbrev path : Text
path = codes "/proc/sys/fs/file-nr"

pub record FileFdStats : Type 0 where
  pub allocated : ℕ
  pub maximum : ℕ

unfoldable pub parse : Text → Result CollectorError FileFdStats
parse content = do
  allocated ← next_field 64 (fields content) path (codes "allocated")
  unused ← next_field 64 allocated.1 path (codes "unused")
  maximum ← next_field 64 unused.1 path (codes "maximum")
  ok (record { allocated = allocated.0; maximum = maximum.0 })

-- The kernel's line: three numbers with tabs between them.
abbrev pub file_nr : ℕ → ℕ → ℕ → Text
file_nr a b c = decimal a ++ (9 ∷ (decimal b ++ (9 ∷ (decimal c ++ (10 ∷ [])))))

fields-file_nr : (a b c : ℕ) → fields (file_nr a b c) ≡ decimal a ∷ decimal b ∷ decimal c ∷ []
unfolding fields pieces
fields-file_nr a b c =
    let (wa, fa) = decimal-IsWord a in
    let (wb, fb) = decimal-IsWord b in
    let (wc, fc) = decimal-IsWord c in
    ap non_empty (
      pieces_word (decimal a) 9 _ wa refl
      ∙ ap (λ ps. decimal a ∷ ps)
          (pieces_word (decimal b) 9 _ wb refl
            ∙ ap (λ ps. decimal b ∷ ps) (pieces_word (decimal c) 10 [] wc refl)))
    ∙ rw (non_empty, fa, fb, fc) refl

-- What the kernel prints of three u64 is read back.
pub parse-file_nr :
    (a b c : ℕ)
    → a < 2 ^ 64
    → b < 2 ^ 64
    → c < 2 ^ 64
    → parse (file_nr a b c) ≡ ok (record { allocated = a; maximum = c })
unfolding parse
parse-file_nr a b c ha hb hc =
    rw
      (
        fields-file_nr a b c,
        next_field-decimal 64 a (decimal b ∷ decimal c ∷ []) path (codes "allocated") ha,
        next_field-decimal 64 b (decimal c ∷ []) path (codes "unused") hb,
        next_field-decimal 64 c [] path (codes "maximum") hc,
      )
      refl
