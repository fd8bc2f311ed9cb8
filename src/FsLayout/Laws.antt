-- ===== src/FsLayout/Laws.antt =====
-- The path of an artifact's payload (fs_layout.rs, `relative_artifact_payload_path`).
use codex_background_task_ha.Base.{
  ℕ, ◌≡◌, refl, ◌∙◌, Bool, true, false, not, ◌||◌, List, [], ◌∷◌, arith, ◌==◌, any_where,
  any-append,
}
use codex_background_task_ha.FsLayout.{
  codes, same_text, is_ascii_alphanumeric, is_id_byte, validate_id_path_component,
  relative_artifact_payload_path, is_absolute, cons_head, pieces, is_parent_dir, escapes,
}

abbrev is_dot : ℕ → Bool
is_dot b = b == b'.'

abbrev dotted : List ℕ → Bool
dotted = any_where is_dot

any-cons_head :
    (b : ℕ) (ps : List (List ℕ))
    → any_where dotted (cons_head b ps) ≡ (is_dot b || any_where dotted ps)
unfolding any_where
any-cons_head b [] = ground arith
any-cons_head b (p ∷ ps) = ground arith

any-pieces : (s : List ℕ) → any_where dotted (pieces s) ≡ any_where is_dot s
unfolding pieces any_where
any-pieces [] = refl
any-pieces (b ∷ s) = ground (arith, any-pieces s, any-cons_head b (pieces s))

parent_dotted : (p : List ℕ) → dotted p ≡ false → is_parent_dir p ≡ false
unfolding is_parent_dir same_text any_where
parent_dotted [] h = refl
parent_dotted (b ∷ p) h = ground arith

any-parent : (ps : List (List ℕ)) → any_where dotted ps ≡ false → any_where is_parent_dir ps ≡ false
unfolding any_where
any-parent [] h = refl
any-parent (p ∷ ps) h = ground (arith, parent_dotted p, any-parent ps)

id_undotted :
    (s : List ℕ) → any_where (λ b. not (is_id_byte b)) s ≡ false → any_where is_dot s ≡ false
unfolding any_where is_id_byte is_ascii_alphanumeric
id_undotted [] h = refl
id_undotted (b ∷ s) h = ground (arith, id_undotted s)

payload_undotted :
    (s : List ℕ)
    → any_where is_dot s ≡ false
    → any_where is_dot (relative_artifact_payload_path s) ≡ false
unfolding relative_artifact_payload_path any_where
payload_undotted s h = ground (arith, any-append is_dot s (codes "/payload"))

-- The payload of an artifact with a valid identifier has a relative path that no `..` leads out
-- of.
pub payload_path_stays_inside :
    (artifact_id : List ℕ)
    → validate_id_path_component artifact_id ≡ true
    → (is_absolute (relative_artifact_payload_path artifact_id) ≡ false)
      × (escapes (relative_artifact_payload_path artifact_id) ≡ false)
unfolding validate_id_path_component escapes is_absolute relative_artifact_payload_path
payload_path_stays_inside artifact_id h =
    let ids : any_where (λ b. not (is_id_byte b)) artifact_id ≡ false = ground arith in
    let undotted = payload_undotted artifact_id (id_undotted artifact_id ids) in
    (refl, any-parent _ (any-pieces (relative_artifact_payload_path artifact_id) ∙ undotted))
