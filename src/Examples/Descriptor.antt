-- ===== src/Examples/Descriptor.antt =====
-- The descriptor numbers: tests, and the theorem at a concrete input.
use curator_agent_launcher.Base.{true, ◌≡◌, refl, List, [], ◌∷◌, codes, Bytes, bytes_eq, some, none}
use curator_agent_launcher.MemberWire.Descriptor.{
  DescriptorNumbers, parse_descriptor_args, descriptor_loop, index_of, digits, leading_zero,
  spelled, seen, used, value_at,
}
use curator_agent_launcher.MemberWire.Descriptor.Distinct.{
  proper, listed, parse_descriptor_args-proper,
}

abbrev descriptor_args : List Bytes
descriptor_args =
    codes "--objects-fd"
    ∷ codes "5"
    ∷ codes "--request-fd"
    ∷ codes "3"
    ∷ codes "--authorization-fd"
    ∷ codes "4"
    ∷ codes "--state-fd"
    ∷ codes "6"
    ∷ codes "--response-fd"
    ∷ codes "7"
    ∷ codes "--controller-fd"
    ∷ codes "255"
    ∷ []

abbrev descriptor_numbers : DescriptorNumbers
descriptor_numbers = record {
  request = 3;
  authorization = 4;
  objects = 5;
  state = 6;
  response = 7;
  controller = 255;
}

test_descriptors : parse_descriptor_args descriptor_args ≡ some descriptor_numbers
unfolding parse_descriptor_args descriptor_loop index_of digits leading_zero spelled seen used
    value_at bytes_eq
test_descriptors = refl

-- A number is used twice; a zero leads.
test_descriptors_refused :
    (parse_descriptor_args (
        codes "--objects-fd"
        ∷ codes "5"
        ∷ codes "--request-fd"
        ∷ codes "5"
        ∷ codes "--authorization-fd"
        ∷ codes "4"
        ∷ codes "--state-fd"
        ∷ codes "6"
        ∷ codes "--response-fd"
        ∷ codes "7"
        ∷ codes "--controller-fd"
        ∷ codes "8"
        ∷ [])
      ≡ none)
    × (spelled (codes "03") ≡ none)
unfolding parse_descriptor_args descriptor_loop index_of digits leading_zero spelled seen used
    value_at bytes_eq
test_descriptors_refused = (refl, refl)

parse_descriptor_args-proper_example : proper (listed descriptor_numbers) ≡ true
parse_descriptor_args-proper_example =
    parse_descriptor_args-proper descriptor_args descriptor_numbers test_descriptors
