-- ===== src/Whatsapp/Components/Contacts.antt =====
-- The contacts of internal/whatsapp/messaging/components/contact.go, and their metadata.
use im_providers_service.Prelude.{String, List, [], ◌∷◌, ◌++◌, ◌==◌, string_eq, if◌then◌else◌}

pub record ContactAddress : Type 0 where
  pub street : String
  pub city : String
  pub state : String
  pub zip : String
  pub country : String
  pub country_code : String
  pub type : String

pub record ContactName : Type 0 where
  pub formatted_name : String
  pub first_name : String
  pub last_name : String
  pub middle_name : String
  pub suffix : String
  pub prefix : String

pub record ContactOrg : Type 0 where
  pub company : String
  pub title : String
  pub department : String

pub record ContactEmail : Type 0 where
  pub email : String
  pub type : String

pub record ContactPhone : Type 0 where
  pub phone : String
  pub wa_id : String
  pub type : String

pub record ContactUrl : Type 0 where
  pub url : String
  pub type : String

pub record Contact : Type 0 where
  pub name : ContactName
  pub org : ContactOrg
  pub addresses : List ContactAddress
  pub urls : List ContactUrl
  pub emails : List ContactEmail
  pub phones : List ContactPhone
  pub birthday : String

-- The values that AsMetadata puts in its map.
pub data Metadata : Type 0 where
  a_text : String → Metadata
  texts : List (String × String) → Metadata
  addresses_of : List ContactAddress → Metadata
  emails_of : List ContactEmail → Metadata
  urls_of : List ContactUrl → Metadata
  phones_of : List ContactPhone → Metadata

-- cmp.Or of three texts
abbrev first_of : String → String → String → String
first_of a b c = if a == "" then (if b == "" then c else b) else a

birthday_data : String → List (String × Metadata)
birthday_data birthday = if birthday == "" then [] else ("birthday", a_text birthday) ∷ []

company_data : ContactOrg → List (String × Metadata)
company_data org =
    if first_of org.company org.department org.title == ""
    then []
    else (
      "company",
      texts (("company", org.company) ∷ ("department", org.department) ∷ ("title", org.title) ∷ []),
    )
      ∷ []

addresses_data : List ContactAddress → List (String × Metadata)
addresses_data [] = []
addresses_data (a ∷ addresses) = ("addresses", addresses_of (a ∷ addresses)) ∷ []

-- all but the first
emails_data : List ContactEmail → List (String × Metadata)
emails_data [] = []
emails_data (e ∷ []) = []
emails_data (e ∷ f ∷ emails) = ("emails", emails_of (f ∷ emails)) ∷ []

urls_data : List ContactUrl → List (String × Metadata)
urls_data [] = []
urls_data (u ∷ urls) = ("urls", urls_of (u ∷ urls)) ∷ []

phones_data : List ContactPhone → List (String × Metadata)
phones_data [] = []
phones_data (p ∷ []) = []
phones_data (p ∷ q ∷ phones) = ("phones", phones_of (q ∷ phones)) ∷ []

-- Contact.AsMetadata, as the list of the map's pairs
unfoldable pub as_metadata : Contact → List (String × Metadata)
unfolding birthday_data company_data addresses_data emails_data urls_data phones_data
as_metadata contact =
    birthday_data contact.birthday
    ++ company_data contact.org
    ++ (
      "name_details",
      texts (
          ("first_name", contact.name.first_name)
          ∷ ("last_name", contact.name.last_name)
          ∷ ("middle_name", contact.name.middle_name)
          ∷ ("prefix", contact.name.prefix)
          ∷ ("suffix", contact.name.suffix)
          ∷ []),
    )
      ∷ addresses_data contact.addresses
    ++ emails_data contact.emails
    ++ urls_data contact.urls
    ++ phones_data contact.phones
