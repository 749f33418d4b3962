-- ===== src/Tests/Digests.antt =====
-- MD5 on two of the vectors of RFC 1321 appendix A.5.
use dhcp_golib.Base.{◌≡◌, refl, [], ◌∷◌}
use dhcp_golib.Wire.HmacMd5.{md5_sum}

md5_of_nothing :
    md5_sum []
    ≡ 212 ∷ 29 ∷ 140 ∷ 217 ∷ 143 ∷ 0 ∷ 178 ∷ 4 ∷ 233 ∷ 128 ∷ 9 ∷ 152 ∷ 236 ∷ 248 ∷ 66 ∷ 126 ∷ []
unfolding md5_sum
md5_of_nothing = refl

md5_of_abc :
    md5_sum (97 ∷ 98 ∷ 99 ∷ [])
    ≡ 144 ∷ 1 ∷ 80 ∷ 152 ∷ 60 ∷ 210 ∷ 79 ∷ 176 ∷ 214 ∷ 150 ∷ 63 ∷ 125 ∷ 40 ∷ 225 ∷ 127 ∷ 114 ∷ []
unfolding md5_sum
md5_of_abc = refl
