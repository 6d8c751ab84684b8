-- ===== src/Dns/Check.antt =====
-- dns/resolver.go: appendRequest, foldCase, equalASCIIName and checkResponse. The builder and the parser
-- of package dnsmessage are parameters.
use bfx_outline_sdk.Prelude.{
  ◌∙◌, ap₂, ap, sym, Bool-cases, arith, ==_iff, refl, map, ◌+◌, ◌-◌, length, not, ◌&&◌, leb, ◌==◌,
  if◌then◌else◌, Bool, ℕ, List, ◌↔◌, map, [], none, some, inl, inr, ◌∷◌, ◌≡◌, true, false, suc,
}
use bfx_outline_sdk.Io.{Bytes, Fault, Fallible, ◌>>=◌, wrap, message}

-- A dnsmessage.Name is the bytes of Data up to Length.
pub record Question : Type 0 where
  pub name : Bytes
  pub qtype : ℕ
  pub class : ℕ

-- What the code reads of a dnsmessage.Message; `body` stands for the rest.
pub record Message : Type 0 where
  pub id : ℕ
  pub response : Bool
  pub questions : List Question
  pub body : Bytes

-- dnsmessage.Builder step by step, and Message.Unpack.
pub record Dnsmessage : Type 1 where
  pub Builder : Type 0
  pub new_builder : Bytes → ℕ → Builder
  pub start_questions : Builder → Fallible Builder
  pub add_question : Question → Builder → Fallible Builder
  pub start_additionals : Builder → Fallible Builder
  pub set_edns0 : ℕ → Fallible ℕ
  pub opt_resource : ℕ → Builder → Fallible Builder
  pub finish : Builder → Fallible Bytes
  pub unpack : Bytes → Fallible Message

abbrev pub max_udp_message_size : ℕ
max_udp_message_size = 1232

unfoldable pub append_request : (dm : Dnsmessage) → ℕ → Question → Bytes → Fallible Bytes
append_request dm id q buf =
    wrap "start questions failed" (dm.start_questions (dm.new_builder buf id))
    >>= λ (b1 : dm.Builder).
        wrap "add question failed" (dm.add_question q b1) >>= λ (b2 : dm.Builder).
        wrap "start additionals failed" (dm.start_additionals b2) >>= λ (b3 : dm.Builder).
        wrap "set EDNS(0) failed" (dm.set_edns0 max_udp_message_size) >>= λ (rh : ℕ).
        wrap "add OPT RR failed" (dm.opt_resource rh b3) >>= λ (b4 : dm.Builder).
        wrap "message serialization failed" (dm.finish b4)

unfoldable pub fold_case : ℕ → ℕ
fold_case char = if leb 97 char && leb char 122 then char - 97 + 65 else char

-- The loop of equalASCIIName over the bytes.
unfoldable pub equal_bytes : Bytes → Bytes → Bool
equal_bytes [] [] = true
equal_bytes [] (b ∷ y) = false
equal_bytes (a ∷ x) [] = false
equal_bytes (a ∷ x) (b ∷ y) =
    let rest = equal_bytes x y in if not (fold_case a == fold_case b) then false else rest

unfoldable pub equal_ascii_name : Bytes → Bytes → Bool
equal_ascii_name x y = if not (length x == length y) then false else equal_bytes x y

abbrev pub same_question : Question → Question → Bool
same_question q r = q.qtype == r.qtype && (q.class == r.class && equal_ascii_name q.name r.name)

abbrev pub check_questions : Question → List Question → Fault
check_questions q [] = some (message "response had no questions")
check_questions q (r ∷ _) =
    if same_question q r then none else some (message "response question doesn't match request")

unfoldable pub check_response : ℕ → Question → Message → Fault
check_response req_id req_ques resp =
    if not resp.response
    then some (message "response bit not set")
    else if not (req_id == resp.id)
    then some (message "message id does not match")
    else check_questions req_ques resp.questions

-- The names are the same but for the case of ASCII letters.
abbrev pub SameName : Bytes → Bytes → Type 0
SameName x y = map fold_case x ≡ map fold_case y

equal_bytes_iff : (x y : Bytes) → (equal_bytes x y ≡ true) ↔ SameName x y
unfolding equal_bytes
equal_bytes_iff [] [] = (λ h. refl, λ h. refl)
equal_bytes_iff [] (b ∷ y) = (λ h. absurd (cc h), λ h. absurd (cc h))
equal_bytes_iff (a ∷ x) [] = (λ h. absurd (cc h), λ h. absurd (cc h))
equal_bytes_iff (a ∷ x) (b ∷ y) =
    let ih = equal_bytes_iff x y in
    let test = ==_iff (fold_case a) (fold_case b) in
    elim (Bool-cases (fold_case a == fold_case b)) [
      | inl e ↦ (λ h. ap₂ ◌∷◌ (test.0 e) (ih.0 (rw e at h)), λ h. rw e (ih.1 (cc h)))
      | inr e ↦ (λ h. absurd (cc (rw e at h)), λ h. absurd (cc (e, test.1 (cc h))))
    ]

length-map : (f : ℕ → ℕ) (x : Bytes) → length (map f x) ≡ length x
length-map f [] = refl
length-map f (a ∷ x) = ap suc (length-map f x)

SameName-length : (x y : Bytes) → SameName x y → length x ≡ length y
SameName-length x y h = sym (length-map fold_case x) ∙ ap length h ∙ length-map fold_case y

-- equalASCIIName compares up to case.
pub equal_ascii_name_iff : (x y : Bytes) → (equal_ascii_name x y ≡ true) ↔ SameName x y
unfolding equal_ascii_name
equal_ascii_name_iff x y =
    let bytes = equal_bytes_iff x y in
    elim (Bool-cases (length x == length y)) [
      | inl e ↦ (λ h. bytes.0 (rw e at h), λ h. rw e (bytes.1 h))
      | inr e ↦ (
        λ h. absurd (cc (rw e at h)),
        λ h. absurd (cc (e, (==_iff (length x) (length y)).1 (SameName-length x y h))),
      )
    ]

-- What a response to the question with the id looks like.
pub record Answers (id : ℕ) (q : Question) (m : Message) : Type 0 where
  pub is_response : m.response ≡ true
  pub same_id : m.id ≡ id
  pub first : Question
  pub others : List Question
  pub questions : m.questions ≡ first ∷ others
  pub same_type : first.qtype ≡ q.qtype
  pub same_class : first.class ≡ q.class
  pub same_name : SameName q.name first.name

same_question_iff :
    (q r : Question)
    → (same_question q r ≡ true)
      ↔ ((r.qtype ≡ q.qtype) × (r.class ≡ q.class) × SameName q.name r.name)
same_question_iff q r =
    let name = equal_ascii_name_iff q.name r.name in
    (λ h. (ground arith, ground arith, name.0 (ground arith)), λ h. rw (name.1 h.2) (ground arith))

check_questions-Answers :
    (id : ℕ) (q : Question) (m : Message) (qs : List Question)
    → m.response ≡ true
    → m.id ≡ id
    → m.questions ≡ qs
    → check_questions q qs ≡ none
    → Answers id q m
check_questions-Answers id q m [] hr hi hq h = absurd (cc h)
check_questions-Answers id q m (r ∷ rs) hr hi hq h = elim (Bool-cases (same_question q r)) [
  | inl e ↦
      let (t, c, n) = (same_question_iff q r).0 e in
      record {
        is_response = hr;
        same_id = hi;
        first = r;
        others = rs;
        questions = hq;
        same_type = t;
        same_class = c;
        same_name = n;
      }
  | inr e ↦ absurd (cc (rw e at h))
]

-- checkResponse passes just these.
pub check_response_iff :
    (id : ℕ) (q : Question) (m : Message) → (check_response id q m ≡ none) ↔ Answers id q m
unfolding check_response
check_response_iff id q m = (
  λ h. elim (Bool-cases m.response) [
    | inl r ↦ elim (Bool-cases (id == m.id)) [
      | inl e ↦
          check_questions-Answers id q m m.questions r (sym ((==_iff id m.id).0 e)) refl
            (rw (r, e) at h)
      | inr e ↦ absurd (cc (rw (r, e) at h))
    ]
    | inr r ↦ absurd (cc (rw r at h))
  ],
  λ a.
      let same = (same_question_iff q a.first).1 (a.same_type, a.same_class, a.same_name) in
      rw (a.is_response, (==_iff id m.id).1 (sym a.same_id), a.questions, same),
)
