-- ===== src/Detector/Setup/Ready.antt =====
-- What `initialize` promises.
use edgevision_rv1126b.Prelude.{
  ℕ, zero, suc, ◌+◌, ◌<◌, ◌≡◌, refl, sym, ap, ◌∙◌, Bool, true, false, not, List, ◌∷◌, ◌++◌, Option,
  none, some, arith, ltb, length, get_elem?, is_empty, if-intro, replicate,
}
use edgevision_rv1126b.Prelude.Int.{ℤ, pos, negsuc}
use edgevision_rv1126b.Text.{ascii}
use edgevision_rv1126b.Detector.Labels.{load_labels}
use edgevision_rv1126b.Detector.Nms.{eqb_ℤ}
use edgevision_rv1126b.Detector.Rows.{to_string}
use edgevision_rv1126b.Detector.Setup.{
  AiConfig, TensorAttr, blank_attr, Impl, RknnDetector, Runtime, create, refuse, set_input,
  query_outputs, accept_input, accept_outputs, query_model, initialize,
}

eqb_ℤ_lem : (a b : ℤ) → eqb_ℤ a b ≡ true → a ≡ b
eqb_ℤ_lem (pos m) (pos n) e = ap pos (ground arith)
eqb_ℤ_lem (pos m) (negsuc n) e = absurd (ground arith)
eqb_ℤ_lem (negsuc m) (pos n) e = absurd (ground arith)
eqb_ℤ_lem (negsuc m) (negsuc n) e = ap negsuc (ground arith)

not-false : (b : Bool) → not b ≡ false → b ≡ true
not-false true e = refl
not-false false e = cc

-- The attributes of `n` outputs, as the runtime gives them.
pub record Queried (output_attr : ℕ → Option TensorAttr) (n start : ℕ) (attrs : List TensorAttr)
    : Type 0 where
  pub all_there : length attrs ≡ n
  pub given : (i : ℕ) → i < n → get_elem? attrs i ≡ output_attr (start + i)

-- A loop without a failure has queried every output.
AllQueried : (ℕ → Option TensorAttr) → ℕ → ℕ → List TensorAttr × Option ℕ → Type 0
AllQueried output_attr n start (attrs, none) = Queried output_attr n start attrs
AllQueried output_attr n start (attrs, some i) = Unit {0}

query_outputs-AllQueried :
    (output_attr : ℕ → Option TensorAttr) (n start : ℕ)
    → AllQueried output_attr n start (query_outputs output_attr n start)
unfolding query_outputs AllQueried
query_outputs-AllQueried output_attr zero start = record {
  all_there = refl;
  given = λ i lt. absurd (omega arith);
}
query_outputs-AllQueried output_attr (suc n) start =
    by_answer (output_attr start) refl (query_outputs output_attr n (start + 1))
      (query_outputs-AllQueried output_attr n (start + 1))
  where
    one_more :
        (attr : TensorAttr) (attrs : List TensorAttr)
        → output_attr start ≡ some attr
        → Queried output_attr n (start + 1) attrs
        → (i : ℕ) → i < suc n
        → get_elem? (attr ∷ attrs) i ≡ output_attr (start + i)
    one_more attr attrs e q zero lt = sym e ∙ ap output_attr (omega arith)
    one_more attr attrs e q (suc i) lt = q.given i (omega arith) ∙ ap output_attr (omega arith)

    by_answer :
        (answer : Option TensorAttr)
        → output_attr start ≡ answer
        → (rest : List TensorAttr × Option ℕ) → AllQueried output_attr n (start + 1) rest
        → AllQueried output_attr (suc n) start (elim answer [
          | none ↦ (replicate (suc n) blank_attr, some start)
          | some attr ↦ (attr ∷ rest.0, rest.1)
        ])
    by_answer none e rest q = tt
    by_answer (some attr) e (attrs, none) q = record {
      all_there = ap suc q.all_there;
      given = one_more attr attrs e q;
    }
    by_answer (some attr) e (attrs, some i) q = tt

module _ {F : Type 0} (config : AiConfig F) (runtime : Runtime) where
  -- The state after an initialisation that succeeded.
  pub record Ready (after : RknnDetector F) : Type 0 where
    pub initialized : after.initialized ≡ true
    pub wanted : config.enabled ≡ true
    pub has_model : is_empty config.model_path ≡ false
    pub opened : runtime.init_ret ≡ pos 0
    pub n_output : ℕ
    pub counted : runtime.n_output ≡ some n_output
    pub outputs : Queried runtime.output_attr n_output 0 after.impl.output_attrs
    pub three_channels : after.impl.input_channels ≡ pos 3
    pub labelled : after.impl.labels ≡ load_labels config.labels_path runtime.label_lines

  -- The state after one that failed: the reason is there.
  pub record Off (after : RknnDetector F) : Type 0 where
    pub not_initialized : after.initialized ≡ false
    pub reason : is_empty after.disabled_reason ≡ false

  abbrev pub Settled : RknnDetector F × Bool → Type 0
  Settled (after, true) = Ready after × (after.config ≡ config)
  Settled (after, false) = Off after × (after.config ≡ config)

  -- What holds of the detector when the queries begin.
  record Opened (d : RknnDetector F) : Type 0 where
    off : d.initialized ≡ false
    same : d.config ≡ config
    wanted : config.enabled ≡ true
    has_model : is_empty config.model_path ≡ false
    opened : runtime.init_ret ≡ pos 0
    labelled : d.impl.labels ≡ load_labels config.labels_path runtime.label_lines

  refuse-Settled :
      (d : RknnDetector F) (reason : List ℕ)
      → d.initialized ≡ false
      → d.config ≡ config
      → is_empty reason ≡ false
      → Settled (refuse d reason)
  refuse-Settled d reason off same e = (record { not_initialized = off; reason = e }, same)

  set_input_labels : (impl : Impl) (attr : TensorAttr) → (set_input impl attr).labels ≡ impl.labels
  unfolding set_input
  set_input_labels impl attr =
      if-intro {A = Impl} (λ i. i.labels ≡ impl.labels) attr.is_nchw (λ t. refl) (λ f. refl)

  set_input_outputs :
      (impl : Impl) (attr : TensorAttr) → (set_input impl attr).output_attrs ≡ impl.output_attrs
  unfolding set_input
  set_input_outputs impl attr =
      if-intro {A = Impl} (λ i. i.output_attrs ≡ impl.output_attrs) attr.is_nchw (λ t. refl)
        (λ f. refl)

  accept_input-Settled :
      (d : RknnDetector F) (attr : TensorAttr) (n : ℕ)
      → Opened d
      → runtime.n_output ≡ some n
      → Queried runtime.output_attr n 0 d.impl.output_attrs
      → Settled (accept_input d attr)
  unfolding accept_input
  accept_input-Settled d attr n o en q =
      if-intro Settled (ltb attr.n_dims 4) (λ few. refuse-Settled d _ o.off o.same refl)
        (λ enough.
          if-intro Settled (not (eqb_ℤ (set_input d.impl attr).input_channels (pos 3)))
            (λ other.
              refuse-Settled (record d { impl = set_input d.impl attr }) _ o.off o.same refl)
            (λ three. (
              record {
                initialized = refl;
                wanted = o.wanted;
                has_model = o.has_model;
                opened = o.opened;
                n_output = n;
                counted = en;
                outputs = rw (set_input_outputs d.impl attr) q;
                three_channels = eqb_ℤ_lem _ _ (not-false _ three);
                labelled = set_input_labels d.impl attr ∙ o.labelled;
              },
              o.same,
            )))

  accept_outputs-Settled :
      (d : RknnDetector F) (attr : TensorAttr) (n : ℕ)
      → Opened d
      → runtime.n_output ≡ some n
      → Settled (accept_outputs d runtime attr n)
  unfolding accept_outputs AllQueried
  accept_outputs-Settled d attr n o en =
      by_queries (query_outputs runtime.output_attr n 0)
        (query_outputs-AllQueried runtime.output_attr n 0)
    where
      queried : List TensorAttr → RknnDetector F
      queried attrs = record d { impl = record d.impl { output_attrs = attrs } }

      by_queries :
          (r : List TensorAttr × Option ℕ)
          → AllQueried runtime.output_attr n 0 r
          → Settled (elim r.1 [
            | some output ↦
                refuse
                  (queried r.0)
                  (ascii "RKNN_QUERY_OUTPUT_ATTR failed for output " ++ to_string (pos output))
            | none ↦ accept_input (queried r.0) attr
          ])
      by_queries (attrs, some output) q = refuse-Settled (queried attrs) _ o.off o.same refl
      by_queries (attrs, none) q =
          accept_input-Settled (queried attrs) attr n
            (record {
              off = o.off;
              same = o.same;
              wanted = o.wanted;
              has_model = o.has_model;
              opened = o.opened;
              labelled = o.labelled;
            })
            en q

  query_model-Settled : (d : RknnDetector F) → Opened d → Settled (query_model d runtime)
  unfolding query_model
  query_model-Settled d o = by_answers runtime.n_output runtime.input_attr refl
    where
      by_answers :
          (count : Option ℕ) (input : Option TensorAttr)
          → runtime.n_output ≡ count
          → Settled (elim count [
            | none ↦ refuse d (ascii "RKNN_QUERY_IN_OUT_NUM failed")
            | some n_output ↦ elim input [
              | none ↦ refuse d (ascii "RKNN_QUERY_INPUT_ATTR failed")
              | some attr ↦ accept_outputs d runtime attr n_output
            ]
          ])
      by_answers none input e = refuse-Settled d _ o.off o.same refl
      by_answers (some n) none e = refuse-Settled d _ o.off o.same refl
      by_answers (some n) (some attr) e = accept_outputs-Settled d attr n o e

  -- `initialize` on a new detector, whatever the runtime and the label file answer. On true, AI is
  -- enabled and has a model, `rknn_init` succeeded, every output that the runtime counts was queried
  -- with success and its attributes are stored in order, the input has three channels, and the labels
  -- are those of the file. On false the detector stays uninitialised and the reason is set. The
  -- configuration stays as it is.
  pub initialize-Settled : Settled (initialize (create config) runtime)
  unfolding initialize create
  initialize-Settled =
      if-intro Settled (not config.enabled) (λ off. refuse-Settled (create config) _ refl refl refl)
        (λ on.
          if-intro Settled (is_empty config.model_path)
            (λ no_model. refuse-Settled (create config) _ refl refl refl)
            (λ model.
              if-intro Settled (not (eqb_ℤ runtime.init_ret (pos 0)))
                (λ failed. refuse-Settled labelled _ refl refl refl)
                (λ opened.
                  query_model-Settled
                    (record labelled { impl = record labelled.impl { context_open = true } })
                    (record {
                      off = refl;
                      same = refl;
                      wanted = not-false config.enabled on;
                      has_model = model;
                      opened = eqb_ℤ_lem _ _ (not-false _ opened);
                      labelled = refl;
                    }))))
    where
      labelled : RknnDetector F
      labelled = record (create config) {
        impl = record (create config).impl {
          labels = load_labels config.labels_path runtime.label_lines;
        };
      }
