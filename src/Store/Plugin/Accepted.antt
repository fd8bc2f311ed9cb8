-- ===== src/Store/Plugin/Accepted.antt =====
-- Which artifacts a plugin delivery may bring (`validate_plugin_delivery_artifact_reference`).
use codex_background_task_ha.Base.{
  ℕ, ◌<◌, ◌≡◌, refl, sym, subst, true, false, some, List, [], ◌∷◌, arith, ltb, ◌==◌, ==_refl, ok,
  ◌>>=◌, ◌>>◌, guard,
}
use codex_background_task_ha.Models.{PluginDeliveryArtifactInput, NewPluginDelivery}
use codex_background_task_ha.FsLayout.{
  same_text, relative_artifact_payload_path, is_absolute, escapes,
}
use codex_background_task_ha.FsLayout.Laws.{payload_path_stays_inside}
use codex_background_task_ha.Store.Guards.{ensure_nonempty_value, ensure_positive_value}
use codex_background_task_ha.Store.Plugin.Validation.{
  is_path_component, validate_plugin_delivery_artifact_reference, validate_plugin_artifact,
}

same_text_refl : (s : List ℕ) → same_text s s ≡ true
unfolding same_text
same_text_refl [] = refl
same_text_refl (a ∷ s) = let here = ==_refl a in let rest = same_text_refl s in ground arith

module _ (bytes : ℕ → List ℕ) (d : NewPluginDelivery) (f : PluginDeliveryArtifactInput) where
  -- An artifact with a valid identifier, its own canonical path, some content and a retention after
  -- the creation of the delivery passes the checks.
  pub canonical_artifact_is_accepted :
      is_path_component bytes f.artifact_id ≡ true
      → bytes f.relative_path ≡ relative_artifact_payload_path (bytes f.artifact_id)
      → d.created_at < f.retention_until
      → (f.relative_path == 0) ≡ false
      → 0 < f.size_bytes
      → validate_plugin_artifact bytes (record d { artifact = some f }) ≡ ok tt
  unfolding validate_plugin_artifact validate_plugin_delivery_artifact_reference
      ensure_nonempty_value ensure_positive_value guard ◌>>◌ ◌>>=◌
  canonical_artifact_is_accepted valid same later nonempty positive =
      let inside = payload_path_stays_inside (bytes f.artifact_id) valid in
      let relative : is_absolute (bytes f.relative_path) ≡ false =
        subst (λ path. is_absolute path ≡ false) (sym same) inside.0 in
      let kept_inside : escapes (bytes f.relative_path) ≡ false =
        subst (λ path. escapes path ≡ false) (sym same) inside.1 in
      let canonical : same_text (bytes f.relative_path)
            (relative_artifact_payload_path (bytes f.artifact_id))
          ≡ true =
        rw same (same_text_refl _) in
      let size : ltb 0 f.size_bytes ≡ true = ground arith in
      let retained : ltb d.created_at f.retention_until ≡ true = ground arith in
      rw (valid, nonempty, size, retained, relative, canonical, kept_inside) refl
