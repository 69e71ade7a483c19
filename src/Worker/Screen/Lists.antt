-- ===== src/Worker/Screen/Lists.antt =====
-- crates/rootmode-worker/src/screen.rs: the lists of words and phrases.
use rootmode.Prelude.{List, [], ◌∷◌}
use rootmode.Prelude.Text.{Text, text}

abbrev pub minor : List Text
minor =
    text "child"
    ∷ text "children"
    ∷ text "kid"
    ∷ text "kids"
    ∷ text "toddler"
    ∷ text "toddlers"
    ∷ text "infant"
    ∷ text "infants"
    ∷ text "baby"
    ∷ text "babies"
    ∷ text "minor"
    ∷ text "minors"
    ∷ text "preteen"
    ∷ text "preteens"
    ∷ text "preadolescent"
    ∷ text "prepubescent"
    ∷ text "pubescent"
    ∷ text "underage"
    ∷ text "juvenile"
    ∷ text "schoolgirl"
    ∷ text "schoolgirls"
    ∷ text "schoolboy"
    ∷ text "schoolboys"
    ∷ text "kindergarten"
    ∷ text "preschool"
    ∷ text "preschooler"
    ∷ text "boy"
    ∷ text "boys"
    ∷ text "girl"
    ∷ text "girls"
    ∷ text "teen"
    ∷ text "teens"
    ∷ text "teenage"
    ∷ text "teenager"
    ∷ text "teenagers"
    ∷ text "teenaged"
    ∷ text "adolescent"
    ∷ text "adolescents"
    ∷ text "youngster"
    ∷ text "youngsters"
    ∷ text "lolita"
    ∷ []

abbrev pub minor_phrases : List Text
minor_phrases =
    text "elementary school"
    ∷ text "middle school"
    ∷ text "grade school"
    ∷ text "primary school"
    ∷ text "little boy"
    ∷ text "little girl"
    ∷ text "young boy"
    ∷ text "young girl"
    ∷ []

abbrev pub always : List Text
always =
    text "loli"
    ∷ text "shota"
    ∷ text "lolicon"
    ∷ text "shotacon"
    ∷ text "jailbait"
    ∷ text "csam"
    ∷ text "pedo"
    ∷ text "pedophile"
    ∷ text "paedophile"
    ∷ text "pedophilia"
    ∷ text "paedophilia"
    ∷ []

abbrev pub always_phrases : List Text
always_phrases =
    text "child porn" ∷ text "child pornography" ∷ text "kiddie porn" ∷ text "cheese pizza" ∷ []

abbrev pub sexual : List Text
sexual =
    text "nude"
    ∷ text "nudes"
    ∷ text "nudity"
    ∷ text "naked"
    ∷ text "undressed"
    ∷ text "unclothed"
    ∷ text "topless"
    ∷ text "bottomless"
    ∷ text "nsfw"
    ∷ text "porn"
    ∷ text "porno"
    ∷ text "pornographic"
    ∷ text "pornography"
    ∷ text "hentai"
    ∷ text "erotic"
    ∷ text "erotica"
    ∷ text "sexy"
    ∷ text "sexual"
    ∷ text "sexualized"
    ∷ text "sexualised"
    ∷ text "sex"
    ∷ text "orgasm"
    ∷ text "masturbating"
    ∷ text "masturbation"
    ∷ text "genitals"
    ∷ text "genitalia"
    ∷ text "penis"
    ∷ text "vagina"
    ∷ text "vulva"
    ∷ text "breasts"
    ∷ text "boobs"
    ∷ text "tits"
    ∷ text "nipples"
    ∷ text "areola"
    ∷ text "buttocks"
    ∷ text "anus"
    ∷ text "anal"
    ∷ text "blowjob"
    ∷ text "cum"
    ∷ text "semen"
    ∷ text "fellatio"
    ∷ text "cunnilingus"
    ∷ text "intercourse"
    ∷ text "fondling"
    ∷ text "molested"
    ∷ text "molesting"
    ∷ text "rape"
    ∷ text "raped"
    ∷ text "incest"
    ∷ text "bdsm"
    ∷ text "fetish"
    ∷ text "lingerie"
    ∷ text "bikini"
    ∷ text "underwear"
    ∷ text "panties"
    ∷ text "thong"
    ∷ text "seductive"
    ∷ text "provocative"
    ∷ []

abbrev pub sexual_phrases : List Text
sexual_phrases = text "oral sex" ∷ text "spread legs" ∷ text "sexual act" ∷ text "having sex" ∷ []
