-- ===== src/Output/Retained.antt =====
-- What a session has kept of all its output.
use devhatch.Prelude.{
  ℕ, ◌≤◌, List, length, ◌++◌, ◌≡◌, Bool-cases, take, ap, [], ◌⊎◌, ◌∙◌, leb, drop, ◌+◌, append_assoc,
  inl, leb→le, sym, ◌∷◌, append-nil, arith, inr, take-append-drop, length-append, refl,
}
use devhatch.Output.Utf8.{encode_all}
use devhatch.Output.Trim.{trim, trim_output, publish, output_limit, output_high_water}
use devhatch.Output.Boundary.{Trimmed, Trimmed-next_boundary, encode_all-append}

-- `output` is the bytes of the text `kept`, which ends the text `all`; it is at most `high_water`
-- bytes, and where something was dropped, at least `limit` less 3.
pub record Retains (limit high_water : ℕ) (all output : List ℕ) : Type 0 where
  pub dropped : List ℕ
  pub kept : List ℕ
  pub splits : all ≡ dropped ++ kept
  pub holds : output ≡ encode_all kept
  pub fits : length output ≤ high_water
  pub enough : (dropped ≡ []) ⊎ (limit ≤ length output + 3)

module _ (limit high_water : ℕ) (ordered : limit ≤ high_water) where
  Retains-append :
      (all output text : List ℕ)
      → (r : Retains limit high_water all output) → length (output ++ encode_all text) ≤ high_water
      → Retains limit high_water (all ++ text) (output ++ encode_all text)
  Retains-append all output text r short = record {
    dropped = r.dropped;
    kept = r.kept ++ text;
    splits = ap (λ t. t ++ text) r.splits ∙ append_assoc r.dropped r.kept text;
    holds = ap (λ t. t ++ encode_all text) r.holds ∙ sym (encode_all-append r.kept text);
    fits = short;
    enough = elim r.enough [
      | inl e ↦ inl e
      | inr h ↦ inr (omega (arith, length-append output (encode_all text)))
    ];
  }

  Retains-Trimmed :
      (all output text : List ℕ)
      → (r : Retains limit high_water all output) → (left : List ℕ)
      → Trimmed limit (r.kept ++ text) left
      → Retains limit high_water (all ++ text) left
  Retains-Trimmed all output text r left t =
      let cs = r.kept ++ text in
      record {
        dropped = r.dropped ++ take t.kept cs;
        kept = drop t.kept cs;
        splits =
            ap (λ u. u ++ text) r.splits
            ∙ append_assoc r.dropped r.kept text
            ∙ ap (λ u. r.dropped ++ u) (sym (take-append-drop t.kept cs))
            ∙ sym (append_assoc r.dropped (take t.kept cs) (drop t.kept cs));
        holds = t.keeps;
        fits = omega (arith, t.fits);
        enough = inr t.near;
      }

  Retains-trim :
      (all output text : List ℕ)
      → Retains limit high_water all output
      → Retains limit high_water (all ++ text) (trim limit high_water (output ++ encode_all text))
  unfolding trim
  Retains-trim all output text r =
      let e : encode_all (r.kept ++ text) ≡ output ++ encode_all text =
        encode_all-append r.kept text ∙ ap (λ t. t ++ encode_all text) (sym r.holds) in
      elim (Bool-cases (leb (length (output ++ encode_all text)) high_water)) [
        | inl short ↦ rw short (Retains-append all output text r (leb→le _ _ short))
        | inr long ↦
            rw (long, ← e)
              (Retains-Trimmed all output text r _
                (Trimmed-next_boundary limit (r.kept ++ text) (rw e (ground arith))))
      ]

-- The output after a sequence of published texts.
unfoldable pub publish_all : List ℕ → List (List ℕ) → List ℕ
publish_all output [] = output
publish_all output (text ∷ texts) = publish_all (publish output (encode_all text)) texts

-- All that was published, as one text.
abbrev pub joined : List (List ℕ) → List ℕ
joined [] = []
joined (text ∷ texts) = text ++ joined texts

Retains-publish_from :
    (all output : List ℕ) (texts : List (List ℕ))
    → Retains output_limit output_high_water all output
    → Retains output_limit output_high_water (all ++ joined texts) (publish_all output texts)
unfolding publish_all publish trim_output
Retains-publish_from all output [] r = rw append-nil r
Retains-publish_from all output (text ∷ texts) r = rw (← append_assoc) (
    Retains-publish_from (all ++ text) _ texts
      (Retains-trim output_limit output_high_water (omega arith) all output text r))

-- Whatever texts a session publishes, the output that it keeps is the UTF-8 encoding of an end of
-- all of them, cut between two characters; it is at most 640 KiB, and if any text was dropped, at
-- least 512 KiB less 3 bytes.
pub Retains-publish_all :
    (texts : List (List ℕ))
    → Retains output_limit output_high_water (joined texts) (publish_all [] texts)
Retains-publish_all texts = Retains-publish_from [] [] texts (record {
  dropped = [];
  kept = [];
  splits = refl;
  holds = unfold encode_all in refl;
  fits = omega arith;
  enough = inl refl;
})
