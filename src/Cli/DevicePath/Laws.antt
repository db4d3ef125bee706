-- ===== src/Cli/DevicePath/Laws.antt =====
-- What the instance id of a device path is.
use nyan_real_vdd.Base.{
  ◌≡◌, ◌≢◌, refl, true, none, some, [], ◌∷◌, ◌++◌, map, take, arith, All, length, ap, ◌∙◌,
}
use nyan_real_vdd.Cli.{Text, same_text}
use nyan_real_vdd.Cli.DevicePath.{
  hash, brace, path_prefix, without_prefix, rfind_hash, brace_after, without_class, erase_class,
  separator, instance_id_from_device_path,
}

-- The text has no '#'.
abbrev pub NoHash : Text → Type 0
NoHash = All (λ c. c ≢ hash)

rfind_none : (t : Text) → NoHash t → rfind_hash t ≡ none
unfolding rfind_hash
rfind_none [] h = refl
rfind_none (c ∷ cs) h = ground (arith, h.0, rfind_none cs h.1)

-- The last '#' is the one before a text that has none.
rfind-append : (t g : Text) → NoHash g → rfind_hash (t ++ (hash ∷ g)) ≡ some (length t)
unfolding rfind_hash
rfind-append [] g h = ground (arith, rfind_none g h)
rfind-append (c ∷ cs) g h = ground (arith, rfind-append cs g h)

brace_after-append : (t g : Text) → brace_after (length t) (t ++ (hash ∷ brace ∷ g)) ≡ true
unfolding brace_after
brace_after-append [] g = refl
brace_after-append (c ∷ cs) g = brace_after-append cs g

take-append : (t g : Text) → take (length t) (t ++ g) ≡ t
take-append [] g = refl
take-append (c ∷ cs) g = ap (◌∷◌ c) (take-append cs g)

without_class-append : (t g : Text) → NoHash g → without_class (t ++ (hash ∷ brace ∷ g)) ≡ t
unfolding without_class
without_class-append t g h =
    let whole = t ++ (hash ∷ brace ∷ g) in
    ap (λ o. erase_class o whole) (rfind-append t (brace ∷ g) ((λ e. absurd (omega arith)), h))
    ∙ simp (brace_after-append t g) (take-append t (hash ∷ brace ∷ g))

NoHash-separator : (t : Text) → NoHash (map separator t)
NoHash-separator [] = tt
NoHash-separator (c ∷ cs) = (ground arith, NoHash-separator cs)

-- The instance id of a path "\\?\" t "#{" g, where g (the rest of the class GUID) has no '#', is t
-- with each '#' replaced by '\'.
pub instance_id_lem :
    (t g : Text)
    → NoHash g
    → instance_id_from_device_path (path_prefix ++ (t ++ (hash ∷ brace ∷ g))) ≡ map separator t
unfolding instance_id_from_device_path without_prefix same_text
instance_id_lem t g h = ap (map separator) (without_class-append t g h)

-- No instance id has a '#', whatever the path is.
pub instance_id-NoHash : (path : Text) → NoHash (instance_id_from_device_path path)
unfolding instance_id_from_device_path
instance_id-NoHash path = NoHash-separator (without_class (without_prefix path))
