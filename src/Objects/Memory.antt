-- ===== src/Objects/Memory.antt =====
-- A cluster in memory that keeps one object under each name, for the witnesses: it meets what is
-- documented of `controllerutil.CreateOrUpdate`.
use Prim.Native.String.{String}
use text.Mathlib.Text.{◌==◌ as str_eq}
use text.Mathlib.TextPositions.{eq_refl}
use picchu.Base.{
  Option, none, some, if◌then◌else◌, finished, finished-injective, ◌>>=◌, >>=-eq-finished, sym, ap,
  ◌∙◌, false,
}
use picchu.Objects.{Object}
use picchu.Objects.Store.{Client, IsClient, or_start}

module _ (V : Type 0) where
  abbrev pub Cluster : Type 0
  Cluster = String → Option (Object V)

  abbrev pub written : Object V → Object V → Cluster → Cluster
  written start o c name = if str_eq start.name name then some o else c name

  abbrev pub client : Client V Cluster String
  client = record {
    read = λ kind start c. c start.name;
    create_or_update = λ kind start f c.
        f (or_start start (c start.name)) >>= λ o. finished (none, written start o c);
    unsupported_type = "unsupported type";
    is_no_change = λ e. false;
  }

  pub client-IsClient : IsClient client
  client-IsClient = record {
    applied = λ kind start f c c' h.
        let (o, made, last) = >>=-eq-finished (f (or_start start (c start.name))) _ h in
        (
          o,
          made,
          sym (ap (λ x. x.1 start.name) (finished-injective last))
              ∙ ap (λ b. if b then some o else c start.name) (eq_refl start.name),
        );
  }

  -- An object of zero values, of which `zero` is that of contents.
  abbrev pub blank_object : V → Object V
  blank_object zero = record {
    name = "";
    namespace = "";
    labels = none;
    annotations = none;
    spec = zero;
    ports = zero;
    selector = zero;
    contents = zero;
    secret_type = zero;
    rules = zero;
    subjects = zero;
    role_ref = zero;
    replicas = none;
    min_ready_seconds = 0;
    template = zero;
    template_labels = none;
    template_annotations = none;
  }
