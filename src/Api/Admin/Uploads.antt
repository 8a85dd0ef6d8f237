-- ===== src/Api/Admin/Uploads.antt =====
-- The uploads that are turned down.
use bank_rag_bot.Prelude.{String, ◌≡◌, refl, arith, eq_iff, none, Elem}
use bank_rag_bot.Prelude.Exec.{raised, http, lift, ◌>>=◌}
use bank_rag_bot.Access.{RequestIdentity}
use bank_rag_bot.NoIndex.Manage.{Archive}
use bank_rag_bot.Ingestion.Loader.{format_of, extension_of, supported_extensions, load, load_as}
use bank_rag_bot.Api.{text_or}
use bank_rag_bot.Api.Admin.{Backend, Form, form_upload, translated, unsupported_is_422}

format_of-absent : (e : String) → ¬ Elem e supported_extensions → format_of e ≡ none
unfolding format_of
format_of-absent e h = ground (
  arith,
  eq_iff e "pdf",
  eq_iff e "docx",
  eq_iff e "md",
  eq_iff e "markdown",
  eq_iff e "txt",
  eq_iff e "csv",
  eq_iff e "xlsx",
  eq_iff e "xlsm",
  eq_iff e "json",
  eq_iff e "xml",
)

module _ {Bytes F Score Vector I : Type 0} (b : Backend Bytes F Score Vector I) where
  -- An employee's upload of a file whose extension is not a supported one is refused with the
  -- status 422, and changes nothing.
  pub form_upload-unsupported :
      (form : Form Bytes) (identity : RequestIdentity) (s : Archive I)
      → ¬ Elem (extension_of b.parsers.lower (text_or "" form.filename)) supported_extensions
      → form_upload b form identity s ≡ (raised (http 422), s)
  unfolding form_upload load load_as translated unsupported_is_422 ◌>>=◌ lift
  form_upload-unsupported form identity s h = rw (format_of-absent _ h) refl
