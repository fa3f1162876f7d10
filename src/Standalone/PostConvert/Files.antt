-- ===== src/Standalone/PostConvert/Files.antt =====
-- Which files step 7 changes, and where the published ports of the pod come to stand.
use Prim.Native.Char.{code}
use text.Mathlib.TextLemmas
use vm_to_quadlet.Base.{
  ℕ, zero, suc, ◌%◌, ◌/◌, String, ◌<>◌, ◌≡◌, refl, ap, ◌∙◌, inl, inr, Bool, true, false, not, ◌||◌,
  subst, some, List, [], ◌∷◌, map, arith, eqb, ◌==◌, eq_iff, if◌then◌else◌, is_empty, find_first,
  update_first, All, Bool-cases, Yields, find_first-update_first, find_first-true,
}
use vm_to_quadlet.Base.Int.{ℤ, pos, negsuc, show}
use vm_to_quadlet.Base.Decimal.{digit, decimal_from, decimal}
use vm_to_quadlet.Base.Text.{split_at}
use vm_to_quadlet.Quadlet
use vm_to_quadlet.Quadlet.{UnitFile}
use vm_to_quadlet.Quadlet.Render.{Directive, write_directives}
use vm_to_quadlet.Quadlet.Render.Reading.{is_key, is_line, is_word, HasKey, HasLine}
use vm_to_quadlet.Quadlet.Render.Keys.{HasKey-map}
use vm_to_quadlet.Standalone.{Options}
use vm_to_quadlet.Standalone.PostConvert.{
  insert_before_section, insert_in_file, passt_path_line, port_pair, proxy_ports, publish_lines,
  inject_pod_publish_ports, inject_passt_binary_path, apply_post_convert_fixups,
}
use vm_to_quadlet.Standalone.PostConvert.Laws.{Reads, insert_before_section-found}

is_line-append : (s t : String) → is_line s ≡ true → is_line t ≡ true → is_line (s <> t) ≡ true
unfolding is_line
is_line-append String.[] t h k = rw (TextLemmas.nil-append t) k
is_line-append (String.◌∷◌ c s) t h k =
    rw (TextLemmas.cons-append c s t) (ground (arith, is_line-append s t))

digit-not_line_end : (d : ℕ) → eqb (code (digit d)) 10 ≡ false
unfolding digit
digit-not_line_end zero = refl
digit-not_line_end (suc zero) = refl
digit-not_line_end (suc (suc zero)) = refl
digit-not_line_end (suc (suc (suc zero))) = refl
digit-not_line_end (suc (suc (suc (suc zero)))) = refl
digit-not_line_end (suc (suc (suc (suc (suc zero))))) = refl
digit-not_line_end (suc (suc (suc (suc (suc (suc zero)))))) = refl
digit-not_line_end (suc (suc (suc (suc (suc (suc (suc zero))))))) = refl
digit-not_line_end (suc (suc (suc (suc (suc (suc (suc (suc zero)))))))) = refl
digit-not_line_end (suc (suc (suc (suc (suc (suc (suc (suc (suc d))))))))) = refl

is_line-decimal_from :
    (fuel n : ℕ) (acc : String) → is_line acc ≡ true → is_line (decimal_from fuel n acc) ≡ true
unfolding decimal_from is_line
is_line-decimal_from zero n acc h = h
is_line-decimal_from (suc fuel) n acc h = ground (
  arith,
  digit-not_line_end n,
  digit-not_line_end (n % 10),
  is_line-decimal_from fuel (n / 10) (String.◌∷◌ (digit (n % 10)) acc),
)

is_line-show : (z : ℤ) → is_line (show z) ≡ true
unfolding show decimal is_line
is_line-show (pos n) = is_line-decimal_from (suc n) n "" refl
is_line-show (negsuc n) =
    is_line-append "-" (decimal (suc n)) refl (is_line-decimal_from (suc (suc n)) (suc n) "" refl)

is_line-port_pair : (z : ℤ) → is_line (port_pair z) ≡ true
unfolding port_pair is_line
is_line-port_pair z =
    is_line-append (show z) (":" <> show z) (is_line-show z)
      (is_line-append ":" (show z) refl (is_line-show z))

-- The directives that the lines of the code amount to.
port_directives : Options → List Directive
unfolding proxy_ports
port_directives opts = map (λ p. ("PublishPort", p)) (proxy_ports opts)

port_directives-HasKey : (opts : Options) → All HasKey (port_directives opts)
unfolding port_directives is_key is_word
port_directives-HasKey opts = HasKey-map "PublishPort" (proxy_ports opts) refl

port_directives-HasLine : (opts : Options) → All HasLine (port_directives opts)
unfolding port_directives proxy_ports
port_directives-HasLine opts = elim (Bool-cases opts.add_vnc_proxy) [
  | inl vnc ↦ elim (Bool-cases opts.add_serial_proxy) [
    | inl serial ↦
        rw (vnc, serial) (is_line-port_pair opts.vnc_port, (is_line-port_pair opts.serial_port, tt))
    | inr no_proxy ↦ rw (vnc, no_proxy) (is_line-port_pair opts.vnc_port, tt)
  ]
  | inr no_vnc ↦ elim (Bool-cases opts.add_serial_proxy) [
    | inl serial ↦ rw (no_vnc, serial) (is_line-port_pair opts.serial_port, tt)
    | inr no_serial ↦ rw (no_vnc, no_serial) tt
  ]
]

publish_lines-eq :
    (ps : List String) → publish_lines ps ≡ write_directives (map (λ p. ("PublishPort", p)) ps)
unfolding publish_lines write_directives
publish_lines-eq [] = refl
publish_lines-eq (p ∷ ps) =
    ap (λ line. line <> "\n" <> publish_lines ps) (TextLemmas.append_assoc "PublishPort" "=" p)
    ∙ ap (λ lines. ("PublishPort" <> "=" <> p) <> "\n" <> lines) (publish_lines-eq ps)

inject_pod_publish_ports-read :
    (files : List UnitFile) (vm_name : String) (opts : Options) (f : UnitFile)
    (before after : String)
    → is_empty (proxy_ports opts) ≡ false
    → find_first (λ f. f.name == (vm_name <> ".pod")) files ≡ some f
    → split_at f.content "\n[Install]" ≡ some (before, after)
    → (content : String) × (find_first
          (λ f. f.name == (vm_name <> ".pod"))
          (inject_pod_publish_ports files vm_name opts)
        ≡ some (record f { content = content }))
      × Reads f.content content before (port_directives opts)
unfolding inject_pod_publish_ports insert_in_file port_directives
inject_pod_publish_ports-read files vm_name opts f before after some_ports found h =
    let name = vm_name <> ".pod" in
    let extra = write_directives (port_directives opts) in
    (
      insert_before_section f.content "Install" extra,
      rw (some_ports, publish_lines-eq (proxy_ports opts))
          (find_first-update_first (λ f. f.name == name)
            (λ f. record f { content = insert_before_section f.content "Install" extra }) files f
            found (find_first-true (λ f. f.name == name) files f found)),
      insert_before_section-found f.content "Install" before after (port_directives opts) h
          (port_directives-HasKey opts) (port_directives-HasLine opts),
    )

-- The ports of the proxies that are asked for, VNC first.
abbrev pub asked_ports : Bool → Bool → ℤ → ℤ → List ℤ
asked_ports true true vnc serial = vnc ∷ serial ∷ []
asked_ports true false vnc serial = vnc ∷ []
asked_ports false true vnc serial = serial ∷ []
asked_ports false false vnc serial = []

-- One directive for each of them, with the same port on the host and in the pod.
abbrev pub asked_directives : Options → List Directive
asked_directives opts =
    map (λ p. ("PublishPort", show p <> ":" <> show p))
      (asked_ports opts.add_vnc_proxy opts.add_serial_proxy opts.vnc_port opts.serial_port)

asked_lem :
    (opts : Options)
    → (port_directives opts ≡ asked_directives opts)
      × (is_empty (proxy_ports opts) ≡ not (opts.add_vnc_proxy || opts.add_serial_proxy))
unfolding port_directives proxy_ports port_pair
asked_lem opts = elim (Bool-cases opts.add_vnc_proxy) [
  | inl vnc ↦ elim (Bool-cases opts.add_serial_proxy) [
    | inl serial ↦ (rw (vnc, serial) refl, rw vnc refl)
    | inr no_serial ↦ (rw (vnc, no_serial) refl, rw vnc refl)
  ]
  | inr no_vnc ↦ elim (Bool-cases opts.add_serial_proxy) [
    | inl serial ↦ (rw (no_vnc, serial) refl, rw (no_vnc, serial) refl)
    | inr no_serial ↦ (rw (no_vnc, no_serial) refl, rw (no_vnc, no_serial) refl)
  ]
]

-- When a proxy is asked for and the pod's own unit has a section [Install], the unit gets one
-- directive PublishPort=<port>:<port> for each proxy that is asked for, that of VNC first, and
-- keeps all that it had. The new ones stand in the section that is open in front of [Install],
-- whichever that is.
pub inject_pod_publish_ports-section :
    (files : List UnitFile) (vm_name : String) (opts : Options) (f : UnitFile)
    (before after : String)
    → (opts.add_vnc_proxy || opts.add_serial_proxy) ≡ true
    → find_first (λ f. f.name == (vm_name <> ".pod")) files ≡ some f
    → split_at f.content "\n[Install]" ≡ some (before, after)
    → (content : String) × (find_first
          (λ f. f.name == (vm_name <> ".pod"))
          (inject_pod_publish_ports files vm_name opts)
        ≡ some (record f { content = content }))
      × Reads f.content content before (asked_directives opts)
inject_pod_publish_ports-section files vm_name opts f before after asked found h =
    let (same, none) = asked_lem opts in
    let (content, e, reads) =
      inject_pod_publish_ports-read files vm_name opts f before after (none ∙ ap not asked) found
        h in
    (content, e, subst (Reads f.content content before) same reads)

update_first-other :
    {A : Type 0} (p q : A → Bool) (g : A → A) (xs : List A)
    → ((x : A) → p x ≡ true → (q x ≡ false) × (q (g x) ≡ false))
    → find_first q (update_first p g xs) ≡ find_first q xs
update_first-other p q g [] h = refl
update_first-other p q g (x ∷ xs) h = ground (arith, update_first-other p q g xs h, h x)

choice_of : {A : Type 0} (P : A → Type 0) (b : Bool) {x y : A} → P x → P y → P (if b then x else y)
choice_of P true h k = h
choice_of P false h k = k

insert_in_file-other :
    (name other section extra : String) (files : List UnitFile)
    → (name == other) ≡ false
    → find_first (λ f. f.name == other) (insert_in_file name section extra files)
      ≡ find_first (λ f. f.name == other) files
unfolding insert_in_file
insert_in_file-other name other section extra files h =
    update_first-other (λ f. f.name == name) (λ f. f.name == other)
      (λ f. record f { content = insert_before_section f.content section extra }) files
      (λ f same. let e = ap (λ n. n == other) ((eq_iff f.name name).0 same) ∙ h in (e, e))

insert_in_file-names :
    (name section extra : String) (files : List UnitFile)
    → map (λ f. f.name) (insert_in_file name section extra files) ≡ map (λ f. f.name) files
unfolding insert_in_file
insert_in_file-names name section extra [] = refl
insert_in_file-names name section extra (f ∷ fs) = elim (Bool-cases (f.name == name)) [
  | inl same ↦ rw same refl
  | inr differs ↦ rw differs (ap (λ ns. f.name ∷ ns) (insert_in_file-names name section extra fs))
]

-- Step 7 always succeeds. It keeps the files in number, order and name; and under any name but
-- those of the pod's own unit and of the guest's container, the first file is the one that was
-- there.
pub apply_post_convert_fixups-names :
    (files : List UnitFile) (vm_name : String) (opts : Options) (conv_opts : Quadlet.Options)
    (other : String)
    → ((vm_name <> ".pod") == other) ≡ false
    → ((vm_name <> "-compute.container") == other) ≡ false
    → Yields
        (λ out.
          (map (λ f. f.name) out ≡ map (λ f. f.name) files)
          × (find_first (λ f. f.name == other) out ≡ find_first (λ f. f.name == other) files))
        (apply_post_convert_fixups files vm_name opts conv_opts)
unfolding apply_post_convert_fixups inject_pod_publish_ports inject_passt_binary_path
apply_post_convert_fixups-names files vm_name opts conv_opts other h k =
    let lines = publish_lines (proxy_ports opts) in
    let pod = vm_name <> ".pod" in
    let published = inject_pod_publish_ports files vm_name opts in
    let names =
      choice_of
        (λ (fs : List UnitFile).
          map (λ (f : UnitFile). f.name) fs ≡ map (λ (f : UnitFile). f.name) files)
        (is_empty (proxy_ports opts)) refl (insert_in_file-names pod "Install" lines files) in
    let others =
      choice_of
        (λ (fs : List UnitFile).
          find_first (λ f. f.name == other) fs ≡ find_first (λ f. f.name == other) files)
        (is_empty (proxy_ports opts)) refl
        (insert_in_file-other pod other "Install" lines files h) in
    let compute = vm_name <> "-compute.container" in
    (
      choice_of
          (λ (fs : List UnitFile).
            map (λ (f : UnitFile). f.name) fs ≡ map (λ (f : UnitFile). f.name) files)
          conv_opts.passt_workarounds
          (insert_in_file-names compute "Service" passt_path_line published ∙ names) names,
      choice_of
          (λ (fs : List UnitFile).
            find_first (λ f. f.name == other) fs ≡ find_first (λ f. f.name == other) files)
          conv_opts.passt_workarounds
          (insert_in_file-other compute other "Service" passt_path_line published k ∙ others)
          others,
    )
