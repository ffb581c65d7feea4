-- ===== src/Queue/Keys.antt =====
-- The Redis keys of the queue: packages/shared/src/shared/keys/queue.py.
use Prim.Native.String.{◌++◌ as ◌<>◌}
use Prim.Native.Char.{Char}
use text.Mathlib.TextLemmas.{
  append_cancel_left, append_cancel_right, cons-append, append_assoc, head-eq_of_cons-eq,
}
use upnext.Prelude.{String, ◌≡◌, ◌≢◌, refl, sym, ap, ◌∙◌, str_eq, true, false, arith, eq_iff}

module _ (key_prefix : String) where
  -- `queue_key`, whose parts are joined by colons.
  abbrev pub queue_key : String → String
  queue_key rest = key_prefix <> (":" <> rest)

  abbrev pub function_key : String → String → String
  function_key kind function = queue_key ("fn:" <> (function <> (":" <> kind)))

  unfoldable pub function_stream_key : String → String
  function_stream_key function = function_key "stream" function

  unfoldable pub function_scheduled_key : String → String
  function_scheduled_key function = function_key "scheduled" function

  unfoldable pub function_dedup_key : String → String
  function_dedup_key function = function_key "dedup" function

  unfoldable pub job_key : String → String → String
  job_key function job_id = queue_key ("job:" <> (function <> (":" <> job_id)))

  unfoldable pub job_index_key : String → String
  job_index_key job_id = queue_key ("job_index:" <> job_id)

  unfoldable pub job_cancelled_key : String → String
  job_cancelled_key job_id = queue_key ("cancelled:" <> job_id)

  unfoldable pub job_status_channel : String → String
  job_status_channel job_id = queue_key ("job:" <> job_id)

-- A text of one character.
abbrev one : Char → String
one c = String.◌∷◌ c ""

-- Texts that start with different characters differ.
starts-ne : (c d : Char) (s t : String) → str_eq (one c) (one d) ≡ false → one c <> s ≢ one d <> t
starts-ne c d s t e h =
    let same : String.◌∷◌ c ("" <> s) ≡ String.◌∷◌ d ("" <> t) =
      sym (cons-append c "" s) ∙ h ∙ cons-append d "" t in
    let eq : one c ≡ one d = ap one (head-eq_of_cons-eq same) in
    let yes : str_eq (one c) (one d) ≡ true = (eq_iff (one c) (one d)).1 eq in absurd (ground arith)

module _ (p : String) where
  tail_eq : {s t : String} → queue_key p s ≡ queue_key p t → s ≡ t
  tail_eq {s} {t} h = append_cancel_left ":" s t (append_cancel_left p _ _ h)

  function_key-injective :
      (kind f g : String) → function_key p kind f ≡ function_key p kind g → f ≡ g
  function_key-injective kind f g h =
      append_cancel_right f g (":" <> kind) (append_cancel_left "fn:" _ _ (tail_eq h))

  pub function_scheduled_key-injective :
      (f g : String) → function_scheduled_key p f ≡ function_scheduled_key p g → f ≡ g
  unfolding function_scheduled_key
  function_scheduled_key-injective f g h = function_key-injective "scheduled" f g h

  pub function_dedup_key-injective :
      (f g : String) → function_dedup_key p f ≡ function_dedup_key p g → f ≡ g
  unfolding function_dedup_key
  function_dedup_key-injective f g h = function_key-injective "dedup" f g h

  pub job_key-ne-job_index_key : (f i j : String) → job_key p f i ≢ job_index_key p j
  unfolding job_key job_index_key
  job_key-ne-job_index_key f i j h =
      let e : "job" <> (":" <> (f <> (":" <> i))) ≡ "job" <> ("_" <> ("index:" <> j)) =
        sym (append_assoc "job" ":" _)
        ∙ tail_eq h
        ∙ append_assoc "job_" "index:" j
        ∙ append_assoc "job" "_" _ in
      starts-ne ":" "_" _ _ refl (append_cancel_left "job" _ _ e)

  pub job_key-ne-job_cancelled_key : (f i j : String) → job_key p f i ≢ job_cancelled_key p j
  unfolding job_key job_cancelled_key
  job_key-ne-job_cancelled_key f i j h =
      starts-ne "j" "c" _ _ refl
        (sym (append_assoc "j" "ob:" _) ∙ tail_eq h ∙ append_assoc "c" "ancelled:" j)

  pub job_index_key-ne-job_cancelled_key :
      (i j : String) → job_index_key p i ≢ job_cancelled_key p j
  unfolding job_index_key job_cancelled_key
  job_index_key-ne-job_cancelled_key i j h =
      starts-ne "j" "c" _ _ refl
        (sym (append_assoc "j" "ob_index:" _) ∙ tail_eq h ∙ append_assoc "c" "ancelled:" j)
