-- ===== src/Options/Memory.antt =====
-- The memory of the arguments, from src/hh_dp_utils.c: what is allocated for them is freed, whatever
-- `strdup` finds, and a loop that goes on without end once it finds nothing.
use dplane_plugin.Base.{
  ℕ, zero, suc, ◌+◌, ◌≡◌, refl, arith, List, [], ◌∷◌, Option, none, some, Bool, true, false, ltb,
  leb, ◌==◌, length, length-append, Bool-cases, inl, inr, if◌then◌else◌,
}
use dplane_plugin.World.Monad.{success, failure}
use dplane_plugin.Options.{
  Supply, Heap, ArgV, PluginArgs, strdup, free, free_args, push_copy, plugin_args_push,
  plugin_args_init, plugin_args_free, strtok, cut, Tokenized, done, undefined, spins, push_found,
  push_next, push_tokens, free_dup, split_dup, plugin_args_tokenize, max_args,
}

-- Since `h` was the heap, n texts more were allocated than freed.
abbrev pub Owes : Heap → ℕ → Heap → Type 0
Owes h n g = g.allocs + h.frees ≡ h.allocs + g.frees + n

-- Each argument is such a text, and x others are.
abbrev pub Owns : Heap → ℕ → PluginArgs → Type 0
Owns h x a = Owes h (length a.argv + x) a.heap

-- After a failure none of the texts is the arguments'.
abbrev pub Leaves : Heap → ℕ → Tokenized → Type 0
Leaves h x (done success a) = Owns h x a
Leaves h x (done failure a) = Owes h x a.heap
Leaves h x _ = Unit

push_copy-Owns :
    (h : Heap) (x : ℕ) (t : List ℕ) (argv : ArgV) (r : Bool × Heap)
    → Owes h (length argv + (if r.0 then 1 else 0) + x) r.1
    → Owns h x (push_copy t argv r).1
push_copy-Owns h x t argv (true, g) o = omega (arith, o, length-append argv (t ∷ []))
push_copy-Owns h x t argv (false, g) o = omega (arith, o)

strdup-Owes :
    (supply : Supply) (h : Heap) (n : ℕ) (g : Heap)
    → Owes h n g
    → Owes h (n + (if (strdup supply g).0 then 1 else 0)) (strdup supply g).1
unfolding strdup
strdup-Owes supply h n g o = ground (arith, o)

module _ (supply : Supply) (h : Heap) where
  push-Owns :
      (x : ℕ) (t : List ℕ) (a : PluginArgs) → Owns h x a → Owns h x (plugin_args_push supply t a).1
  unfolding plugin_args_push
  push-Owns x t a o = elim (Bool-cases (leb max_args (length a.argv))) [
    | inl full ↦ rw full o
    | inr room ↦ rw room (
        push_copy-Owns h x t a.argv (strdup supply a.heap)
          (omega (arith, strdup-Owes supply h (length a.argv + x) a.heap o)))
  ]

  Leaves-if :
      (x : ℕ) (b : Bool) (o p : Tokenized)
      → Leaves h x o
      → Leaves h x p
      → Leaves h x (if b then o else p)
  Leaves-if x true o p i j = i
  Leaves-if x false o p i j = j

  push_found-Leaves :
      (x : ℕ) (more : PluginArgs → Tokenized) (t : Option (List ℕ)) (a : PluginArgs)
      → ((b : PluginArgs) → Owns h x b → Leaves h x (more b))
      → Owns h x a
      → Leaves h x (push_found supply more t a)
  unfolding push_found
  push_found-Leaves x more none a goes_on o = o
  push_found-Leaves x more (some t) a goes_on o =
      let b = (plugin_args_push supply t a).1 in
      Leaves-if x (ltb (length b.argv) max_args) (more b) (done success b)
        (goes_on b (push-Owns x t a o)) (push-Owns x t a o)

  push_next-Leaves :
      (x : ℕ) (more : List ℕ → PluginArgs → Tokenized) (place : Option (List ℕ)) (a : PluginArgs)
      → ((rest : List ℕ) (b : PluginArgs) → Owns h x b → Leaves h x (more rest b))
      → Owns h x a
      → Leaves h x (push_next supply more place a)
  unfolding push_next
  push_next-Leaves x more none a goes_on o = tt
  push_next-Leaves x more (some text) a goes_on o =
      push_found-Leaves x (more (strtok text).1) (strtok text).0 a (goes_on (strtok text).1) o

  push_tokens-Leaves :
      (x k : ℕ) (dup : List ℕ) (saveptr : Option (List ℕ)) (a : PluginArgs)
      → Owns h x a
      → Leaves h x (push_tokens supply k dup saveptr a)
  unfolding push_tokens
  push_tokens-Leaves x zero dup saveptr a o = tt
  push_tokens-Leaves x (suc k) dup saveptr a o =
      push_next-Leaves x
        (λ rest. push_tokens supply k (if length a.argv == 1 then cut dup else dup) (some rest))
        (if length a.argv == 1 then some dup else saveptr) a
        (λ rest b i.
          push_tokens-Leaves x k (if length a.argv == 1 then cut dup else dup) (some rest) b i)
        o

free_args-counts :
    (l : ArgV) (h : Heap)
    → ((free_args l h).allocs ≡ h.allocs) × ((free_args l h).frees ≡ h.frees + length l)
unfolding free_args
free_args-counts [] h = (refl, omega arith)
free_args-counts (t ∷ ts) h =
    let (same, more) = free_args-counts ts (free h) in (same, omega (arith, more))

-- Freeing the arguments leaves none to free.
pub plugin_args_free-Owes :
    (h : Heap) (a : PluginArgs) → Owns h 0 a → Owes h 0 (plugin_args_free a).heap
unfolding plugin_args_free
plugin_args_free-Owes h a o =
    let (same, more) = free_args-counts a.argv a.heap in omega (arith, o, same, more)

module _ (supply : Supply) (h : Heap) where
  free_dup-Leaves : (o : Tokenized) → Leaves h 1 o → Leaves h 0 (free_dup o)
  unfolding free_dup
  free_dup-Leaves (done success a) i = omega (arith, i)
  free_dup-Leaves (done failure a) i = omega (arith, i)
  free_dup-Leaves undefined i = tt
  free_dup-Leaves spins i = tt

  split_dup-Leaves :
      (k : ℕ) (text : List ℕ) (argv : ArgV) (r : Bool × Heap)
      → Owes h (length argv + (if r.0 then 1 else 0)) r.1
      → Leaves h 0 (split_dup supply k text argv r)
  unfolding split_dup
  split_dup-Leaves k text argv (true, g) o =
      free_dup-Leaves (push_tokens supply k text none (record { argv = argv; heap = g }))
        (push_tokens-Leaves supply h 1 k text none (record { argv = argv; heap = g }) o)
  split_dup-Leaves k text argv (false, g) o =
      plugin_args_free-Owes h (record { argv = argv; heap = g }) (omega (arith, o))

  -- However splitting ends, each argument of a success is allocated, and nothing else.
  pub plugin_args_tokenize-Leaves :
      (k : ℕ) (argv0 text : List ℕ) → Leaves h 0 (plugin_args_tokenize supply k argv0 text h)
  unfolding plugin_args_tokenize plugin_args_init
  plugin_args_tokenize-Leaves k argv0 text =
      let a = (plugin_args_init supply argv0 h).1 in
      let o = push-Owns supply h 0 argv0 (record { argv = []; heap = h }) (omega arith) in
      Leaves-if supply h 0 (length text == 0) (done success a)
        (split_dup supply k text a.argv (strdup supply a.heap)) o
        (split_dup-Leaves k text a.argv (strdup supply a.heap)
          (omega (arith, strdup-Owes supply h (length a.argv + 0) a.heap o)))
