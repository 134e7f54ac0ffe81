-- ===== src/Sns/Queues.antt =====
-- The names of queues.
use Prim.Native.String.{◌++◌ as ◌<>◌}
use Prim.Native.Char.{code}
use text.Mathlib.TextLemmas.{nil-append, cons-append, append_assoc, append_cancel_right}
use recs.Prelude.{
  String, ◌≡◌, refl, sym, ap, ap₂, ◌∙◌, true, false, Bool, Bool-cases, inl, inr, arith,
  if◌then◌else◌,
}
use recs.Strings.{has_suffix, trim_suffix, split_colon, last_part}
use recs.Strings.Suffixes.{
  has_colon, after_colon, has_suffix-after_colon, trim_suffix-after_colon, last_part-after_colon,
  has_colon-trim_suffix, trim_suffix-has_suffix, last_char, last_char-append, has_suffix-append,
  has_suffix-last_char,
}
use recs.Sns.{is_fifo, resolve_topic, generate_sqs_queue_name}

-- what a topic's queue is called
abbrev pub queue_of : Bool → String → String
queue_of fifo base = base <> (if fifo then "-queue.fifo" else "-queue")

abbrev suffix_of : Bool → String
suffix_of fifo = if fifo then ".fifo" else ""

abbrev account_of : String → String
account_of region = "arn:aws:sns:" <> (region <> ":000000000000")

resolve_topic-after_colon :
    (region topic : String) → resolve_topic region topic ≡ after_colon (account_of region) topic
unfolding resolve_topic
resolve_topic-after_colon region topic =
    ap (λ x. "arn:aws:sns:" <> (region <> (":000000000000" <> x)))
      (cons-append ":" String.[] topic ∙ ap (String.◌∷◌ ":") (nil-append topic))
    ∙ ap (λ x. "arn:aws:sns:" <> x)
        (sym (append_assoc region ":000000000000" (String.◌∷◌ ":" topic)))
    ∙ sym (append_assoc "arn:aws:sns:" (region <> ":000000000000") (String.◌∷◌ ":" topic))

-- the last lines of the function
abbrev named : Bool → String → String
named fifo name = if fifo then (name <> "-queue") <> ".fifo" else name <> "-queue"

named-queue_of : (fifo : Bool) (name : String) → named fifo name ≡ queue_of fifo name
named-queue_of true name = append_assoc name "-queue" ".fifo"
named-queue_of false name = refl

pub generate_sqs_queue_name-queue_of :
    (region topic : String)
    → has_colon topic ≡ false
    → generate_sqs_queue_name (resolve_topic region topic)
      ≡ queue_of (is_fifo topic) (trim_suffix topic ".fifo")
unfolding generate_sqs_queue_name is_fifo
generate_sqs_queue_name-queue_of region topic h =
    let account = account_of region in
    let arn = resolve_topic-after_colon region topic in
    ap₂ named
      (ap (λ x. has_suffix x ".fifo") arn ∙ has_suffix-after_colon account topic ".fifo" refl)
      (ap (λ x. last_part (split_colon (trim_suffix x ".fifo"))) arn
        ∙ ap (λ x. last_part (split_colon x)) (trim_suffix-after_colon account topic ".fifo" refl)
        ∙ last_part-after_colon account (trim_suffix topic ".fifo")
            (has_colon-trim_suffix topic ".fifo" h))
    ∙ named-queue_of (has_suffix topic ".fifo") (trim_suffix topic ".fifo")

-- the last characters of the two kinds of names differ
queue_of-last_char :
    (fifo : Bool) (base : String) → last_char "-" (queue_of fifo base) ≡ (if fifo then "o" else "e")
queue_of-last_char true base = last_char-append "-" "-" base "queue.fifo"
queue_of-last_char false base = last_char-append "-" "-" base "queue"

is_fifo-queue_of : (fifo : Bool) (base : String) → is_fifo (queue_of fifo base) ≡ fifo
unfolding is_fifo
is_fifo-queue_of true base =
    ap (λ x. has_suffix x ".fifo") (sym (append_assoc base "-queue" ".fifo"))
    ∙ has_suffix-append (base <> "-queue") ".fifo"
is_fifo-queue_of false base = elim (Bool-cases (has_suffix (base <> "-queue") ".fifo")) [
  | inl e ↦
      let ends : code "e" ≡ code "o" = ap code (
        sym (queue_of-last_char false base)
        ∙ has_suffix-last_char "-" "." (base <> "-queue") "fifo" e) in
      absurd (omega (arith, ends))
  | inr n ↦ n
]

queue_of_inj : (b c : Bool) (s t : String) → b ≡ c → queue_of b s ≡ queue_of c t → s ≡ t
queue_of_inj b c s t e h =
    append_cancel_right s t (if c then "-queue.fifo" else "-queue")
      (ap (λ x. queue_of x s) (sym e) ∙ h)

base_and_suffix : (topic : String) → topic ≡ trim_suffix topic ".fifo" <> suffix_of (is_fifo topic)
unfolding is_fifo
base_and_suffix topic = trim_suffix-has_suffix topic ".fifo"

module _ (region : String) where
  -- the queue of a topic
  abbrev queue : String → String
  queue topic = generate_sqs_queue_name (resolve_topic region topic)

  is_fifo-queue : (topic : String) → has_colon topic ≡ false → is_fifo (queue topic) ≡ is_fifo topic
  is_fifo-queue topic n =
      ap is_fifo (generate_sqs_queue_name-queue_of region topic n)
      ∙ is_fifo-queue_of (is_fifo topic) (trim_suffix topic ".fifo")

  queue_inj : (s t : String) → has_colon s ≡ false → has_colon t ≡ false → queue s ≡ queue t → s ≡ t
  queue_inj s t h k e =
      let same : is_fifo s ≡ is_fifo t =
        sym (is_fifo-queue s h) ∙ ap is_fifo e ∙ is_fifo-queue t k in
      let bases : trim_suffix s ".fifo" ≡ trim_suffix t ".fifo" =
        queue_of_inj (is_fifo s) (is_fifo t) _ _ same (
          sym (generate_sqs_queue_name-queue_of region s h)
          ∙ e
          ∙ generate_sqs_queue_name-queue_of region t k) in
      base_and_suffix s ∙ ap₂ (λ x y. x <> suffix_of y) bases same ∙ sym (base_and_suffix t)

-- A queue is FIFO exactly if its topic is, and in one region two topics without a colon in their
-- names do not share a queue.
pub generate_sqs_queue_name_inj :
    (region s t : String)
    → has_colon s ≡ false
    → has_colon t ≡ false
    → (is_fifo (generate_sqs_queue_name (resolve_topic region s)) ≡ is_fifo s)
      × (generate_sqs_queue_name (resolve_topic region s)
            ≡ generate_sqs_queue_name (resolve_topic region t)
          → s ≡ t)
generate_sqs_queue_name_inj region s t h k = (is_fifo-queue region s h, queue_inj region s t h k)
